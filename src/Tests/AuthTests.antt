-- ===== src/Tests/AuthTests.antt =====
-- Examples for internal/auth.
use deep_seek_web_to_api.Prelude.{ltb, ◌-◌, ℕ, ◌≡◌, refl, true, false, not, List, [], ◌∷◌, arith}
use deep_seek_web_to_api.Auth.DirectTokens.{mark_direct_token_invalid, direct_token_blocked}
use deep_seek_web_to_api.Auth.DirectTokens.Bounds.{
  IsBounded, Call, marks, asks, run, run-IsBounded, blocked-mark,
}

abbrev three_calls : List Call
three_calls = marks false "caller:a" 5 ∷ asks " caller:a" 7 ∷ asks "caller:a" 600000000005 ∷ []

run-IsBounded_example : IsBounded (run [] three_calls)
run-IsBounded_example = run-IsBounded [] three_calls (omega arith, refl)

blocked-mark_example :
    (direct_token_blocked " caller:a" 600000000005
      (mark_direct_token_invalid false " caller:a" 5 [])).1
    ≡ ltb (600000000005 - 5) 600_000_000_000
unfolding deep_seek_web_to_api.Prelude.Text.trim_space
blocked-mark_example = blocked-mark " caller:a" 5 600000000005 [] refl
