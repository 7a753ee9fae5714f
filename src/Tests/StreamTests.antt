-- ===== src/Tests/StreamTests.antt =====
-- Examples for internal/stream: a handler that counts the lines it is given.
use deep_seek_web_to_api.Prelude.{
  ℕ, ◌+◌, ◌≡◌, refl, true, false, none, some, List, [], ◌∷◌, arith, ◌==◌,
}
use deep_seek_web_to_api.Prelude.Int.{pos}
use deep_seek_web_to_api.Stream.Failure.{stop_reason_no_content_timeout}
use deep_seek_web_to_api.Stream.Engine.{
  ConsumeConfig, ParsedDecision, Hook, on_keep_alive, on_finalize, Round, State, tick, parsed,
  closed, consume,
}
use deep_seek_web_to_api.Stream.Engine.Ends.{EndsOnce, ticks, consume-EndsOnce, consume_silent}

abbrev config : ConsumeConfig
config = record { idle_timeout = pos 10; max_keep_alive_no_input = pos 3 }

-- Text is content, and the third line stops the stream.
abbrev counts : ℕ → ℕ → ℕ × ParsedDecision
counts seen line = (seen + 1, record { stop = seen == 2; stop_reason = ""; content_seen = true })

abbrev start : State ℕ
start = record { has_content = false; last_content = 0; keepalive_count = 0; handler = 0 }

abbrev rounds : List (Round ℕ)
rounds =
    record { done_before = false; event = tick 1; done_after = false }
    ∷ record { done_before = false; event = parsed 2 7; done_after = false }
    ∷ record { done_before = false; event = tick 20; done_after = false }
    ∷ []

-- The stream is idle after its first line.
times_out :
    consume (some counts) config start rounds
    ≡ (true, on_keep_alive ∷ on_finalize "idle_timeout" none ∷ [])
unfolding consume deep_seek_web_to_api.Stream.Engine.step
    deep_seek_web_to_api.Stream.Engine.take_event deep_seek_web_to_api.Stream.Engine.on_tick
    deep_seek_web_to_api.Stream.Engine.on_decision
times_out = refl

consume-EndsOnce_example : EndsOnce (consume (some counts) config start rounds)
consume-EndsOnce_example = consume-EndsOnce (some counts) config start rounds

consume_silent_example :
    consume (some counts) config start (ticks (1 ∷ 2 ∷ 3 ∷ []))
    ≡ (true, on_keep_alive ∷ on_keep_alive ∷ on_finalize stop_reason_no_content_timeout none ∷ [])
consume_silent_example = consume_silent (some counts) (pos 10) 3 1 0 0 0 (2 ∷ 3 ∷ []) (omega arith)
