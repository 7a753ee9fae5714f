-- ===== src/Tests/PoolTests.antt =====
-- Examples for internal/account: a pool of two accounts.
use deep_seek_web_to_api.Prelude.{
  ℕ, ◌+◌, ◌≤◌, ◌<◌, ◌≡◌, ◌≢◌, refl, sym, subst, Bool, true, false, Option, none, some, List, [],
  ◌∷◌, arith,
}
use deep_seek_web_to_api.Prelude.Int.{pos, ltb_ℤ}
use deep_seek_web_to_api.Prelude.Text.{String, str_eq}
use deep_seek_web_to_api.Prelude.Dict.{Dict, count, total, insert}
use deep_seek_web_to_api.Config.Account.{Account, identifier}
use deep_seek_web_to_api.Config.Store.{Store, rebuild_indexes}
use deep_seek_web_to_api.Account.Health.{Health, rate_limited}
use deep_seek_web_to_api.Account.Affinity.{Affinity, lookup_binding, bind}
use deep_seek_web_to_api.Account.Affinity.Bindings.{lookup_binding-bind}
use deep_seek_web_to_api.Account.Pool.{Pool, Exclude, acquire, acquire_preferred, release}
use deep_seek_web_to_api.Account.Pool.Marks.{mark_transient_account}
use deep_seek_web_to_api.Account.Pool.Admin.{new_pool}
use deep_seek_web_to_api.Account.Pool.Wait.{
  queued, gives_up, wait_round, Call, acquires, waits, releases, run, wait_cancelled,
}
use deep_seek_web_to_api.Account.Pool.Choice.{Calm, blocking, chosen, choice, acquire-choice}
use deep_seek_web_to_api.Account.Pool.Choice.Preferred.{preferred_choice, acquire_preferred-choice}
use deep_seek_web_to_api.Account.Pool.Limits.{InLimits, run-InLimits}
use deep_seek_web_to_api.Account.Pool.Channels.{run-Channels, wake_up_lost}
use deep_seek_web_to_api.Account.Pool.Leak.{
  release-acquire, release-acquire_alias, acquire-crowded_alias,
}
use deep_seek_web_to_api.Account.Pool.Turns.{release-wakes_longest}
use deep_seek_web_to_api.Account.Pool.Waiting.{occurrences}
use deep_seek_web_to_api.Account.Pool.Blocking.{mark_transient_account-blocking}
use deep_seek_web_to_api.Tests.ConfigTests.{test_account, test_store}

abbrev test_affinity : Affinity
test_affinity = record { bindings = []; ttl = 0 }

abbrev nobody : Exclude
nobody id = false

-- Two accounts; the first has one request in flight, and two goroutines wait.
abbrev test_pool : Pool
test_pool = record {
  store = record test_store { acc_map = ("a@b", 0) ∷ ("13800138000", 1) ∷ [] };
  queue = "a@b" ∷ "13800138000" ∷ [];
  in_use = ("a@b", 1) ∷ [];
  waiters = 7 ∷ 8 ∷ [];
  closed = 6 ∷ [];
  next_channel = 9;
  health = [];
  max_inflight_per_account = pos 1;
  recommended_concurrency = pos 2;
  max_queue_size = pos 4;
  global_max_inflight = pos 3;
  affinity = test_affinity;
}

abbrev calls : List (ℕ × Call)
calls =
    (1, acquires "" nobody)
    ∷ (2, acquires "" nobody)
    ∷ (3, acquires "" nobody)
    ∷ (4, waits false "" nobody)
    ∷ (5, releases "a@b")
    ∷ []

run-InLimits_example : InLimits (run (new_pool (rebuild_indexes test_store) test_affinity 0) calls)
run-InLimits_example =
    run-InLimits (rebuild_indexes test_store) test_affinity 0 calls
      (refl, (refl, (refl, (refl, (refl, tt)))))

run-Channels_example :
    occurrences 0 (run (new_pool (rebuild_indexes test_store) test_affinity 0) calls).waiters
      + occurrences 0 (run (new_pool (rebuild_indexes test_store) test_affinity 0) calls).closed
    ≤ 1
run-Channels_example = run-Channels (rebuild_indexes test_store) test_affinity 0 calls 0

acquire-choice_example :
    (m : Dict Health) × Calm 1 test_pool.health m
    × (acquire test_pool 1 "" nobody ≡ chosen test_pool m (choice test_pool 1 "" nobody))
acquire-choice_example = acquire-choice test_pool 1 "" nobody

acquire_preferred-choice_example :
    (m : Dict Health) × Calm 1 test_pool.health m
    × (acquire_preferred test_pool 1 "a@b" nobody
        ≡ chosen test_pool m (preferred_choice test_pool 1 "a@b" nobody))
acquire_preferred-choice_example = acquire_preferred-choice test_pool 1 "a@b" nobody

second_chosen : choice test_pool 1 "" nobody ≡ some "13800138000"
unfolding choice deep_seek_web_to_api.Account.Pool.Choice.first_admissible
    deep_seek_web_to_api.Account.Pool.Choice.admissible
    deep_seek_web_to_api.Config.Store.find_account
    deep_seek_web_to_api.Config.Store.find_account_index
    deep_seek_web_to_api.Config.Store.find_indexed deep_seek_web_to_api.Config.Store.candidates
    deep_seek_web_to_api.Config.Mobile.canonical_mobile_key
    deep_seek_web_to_api.Prelude.Text.trim_space deep_seek_web_to_api.Account.Pool.has_room
second_chosen = refl

release-acquire_example :
    ((j : String)
      → count j (release (acquire test_pool 1 "" nobody).0 "13800138000").in_use
        ≡ count j test_pool.in_use)
    × (total (release (acquire test_pool 1 "" nobody).0 "13800138000").in_use
        ≡ total test_pool.in_use)
release-acquire_example =
    release-acquire test_pool 1 "" nobody "13800138000" second_chosen (refl, tt)

alias_acquired :
    (acquire test_pool 1 "+86 13800138000" nobody).1 ≡ some (test_account "" "13800138000")
unfolding acquire deep_seek_web_to_api.Account.Pool.acquire_target
    deep_seek_web_to_api.Account.Pool.can_acquire_id deep_seek_web_to_api.Config.Store.find_account
    deep_seek_web_to_api.Config.Store.find_account_index
    deep_seek_web_to_api.Config.Store.find_indexed deep_seek_web_to_api.Config.Store.candidates
    deep_seek_web_to_api.Config.Mobile.canonical_mobile_key
    deep_seek_web_to_api.Prelude.Text.trim_space deep_seek_web_to_api.Config.Store.scan_accounts
    identifier deep_seek_web_to_api.Config.Account.normalize_account_identity
    deep_seek_web_to_api.Config.Account.looks_like_email_identifier
    deep_seek_web_to_api.Prelude.Text.contains_char deep_seek_web_to_api.Account.Pool.account_health
    deep_seek_web_to_api.Account.Pool.has_room
alias_acquired = refl

crowded_room :
    ltb_ℤ
      (pos (total (insert (identifier (test_account "" "13800138000")) 1 test_pool.in_use)))
      test_pool.global_max_inflight
    ≡ true
unfolding identifier deep_seek_web_to_api.Prelude.Text.trim_space
    deep_seek_web_to_api.Config.Account.normalize_account_identity
    deep_seek_web_to_api.Config.Account.looks_like_email_identifier
    deep_seek_web_to_api.Prelude.Text.contains_char
    deep_seek_web_to_api.Config.Mobile.normalize_mobile_for_storage
crowded_room = refl

alias_other : str_eq (identifier (test_account "" "13800138000")) "+86 13800138000" ≡ false
unfolding identifier deep_seek_web_to_api.Prelude.Text.trim_space
    deep_seek_web_to_api.Config.Account.normalize_account_identity
    deep_seek_web_to_api.Config.Account.looks_like_email_identifier
    deep_seek_web_to_api.Prelude.Text.contains_char
    deep_seek_web_to_api.Config.Mobile.normalize_mobile_for_storage
alias_other = refl

release-acquire_alias_example :
    count "+86 13800138000"
      (release
        (acquire test_pool 1 "+86 13800138000" nobody).0
        (identifier (test_account "" "13800138000"))).in_use
    ≡ count "+86 13800138000" test_pool.in_use + 1
release-acquire_alias_example =
    release-acquire_alias test_pool 1 "+86 13800138000" nobody (test_account "" "13800138000") refl
      alias_acquired alias_other

wake_up_lost_example :
    ((wait_cancelled (release test_pool "a@b") 7).waiters ≡ 8 ∷ [])
    × ((wait_cancelled (release test_pool "a@b") 7).closed ≡ 7 ∷ 6 ∷ [])
wake_up_lost_example = wake_up_lost test_pool "a@b" 7 8 [] refl (omega arith) refl refl

mark_transient_account-blocking_example :
    blocking 20 (mark_transient_account test_pool 10 "a@b" rate_limited 30 "slow").health "a@b"
    ≡ some (record { state = rate_limited; until = 30; reason = "slow"; updated_at = 10 })
mark_transient_account-blocking_example =
    mark_transient_account-blocking test_pool 10 20 "a@b" "a@b" rate_limited 30 "slow" refl refl

lookup_binding-bind_example : (lookup_binding (bind test_affinity 5 "k" "a@b") 6 "k").1 ≡ ""
lookup_binding-bind_example = lookup_binding-bind test_affinity 5 6 "k" "a@b" "k" refl refl

acquire-crowded_alias_example :
    (acquire
      (record test_pool {
        in_use = insert (identifier (test_account "" "13800138000")) 1 test_pool.in_use;
      })
      1
      "+86 13800138000"
      nobody).1
    ≡ some (test_account "" "13800138000")
acquire-crowded_alias_example =
    acquire-crowded_alias test_pool 1 1 "+86 13800138000" nobody (test_account "" "13800138000")
      refl alias_other alias_acquired crowded_room

-- One account with one slot, and three goroutines that wait in turn, of which the first gives up.
abbrev small_store : Store
small_store = record {
  accounts = test_account "a@b" "" ∷ [];
  acc_map = ("a@b", 0) ∷ [];
  runtime = record test_store.runtime { account_max_inflight = pos 1; account_max_queue = pos 4 };
}

abbrev first_calls : List (ℕ × Call)
first_calls = (1, acquires "" nobody) ∷ (5, waits false "" nobody) ∷ []

abbrev later_calls : List (ℕ × Call)
later_calls = (7, gives_up 0) ∷ (8, waits false "" nobody) ∷ []

abbrev before_pool : Pool
before_pool = run (new_pool small_store test_affinity 0) first_calls

abbrev after_pool : Pool
after_pool = run (wait_round before_pool 6 false "" nobody).0 later_calls

-- Who waits, which channel is next, and the slot that is held.
line_lem :
    (before_pool.waiters ≡ 0 ∷ [])
    × ((wait_round before_pool 6 false "" nobody).1 ≡ queued 1)
    × (after_pool.waiters ≡ 1 ∷ 2 ∷ [])
    × (count "a@b" after_pool.in_use ≡ 1)
unfolding run deep_seek_web_to_api.Account.Pool.Wait.step wait_round
    deep_seek_web_to_api.Account.Pool.Wait.settle acquire
    deep_seek_web_to_api.Account.Pool.try_acquire deep_seek_web_to_api.Account.Pool.try_from
    new_pool deep_seek_web_to_api.Account.Pool.Admin.reset
    deep_seek_web_to_api.Account.Pool.Admin.active_ids
    deep_seek_web_to_api.Account.Pool.Admin.token_first rebuild_indexes identifier
    deep_seek_web_to_api.Prelude.Text.trim_space
    deep_seek_web_to_api.Config.Account.normalize_account_identity
    deep_seek_web_to_api.Account.Pool.can_acquire_id deep_seek_web_to_api.Config.Store.find_account
    deep_seek_web_to_api.Account.Pool.Admin.apply_plan
    deep_seek_web_to_api.Account.Pool.Admin.default_recommended_concurrency
    deep_seek_web_to_api.Account.Pool.Admin.has_id
    deep_seek_web_to_api.Account.Pool.Admin.insert_all
    deep_seek_web_to_api.Account.Pool.Admin.persisted_cooldown_health
    deep_seek_web_to_api.Account.Pool.Admin.persisted_health
    deep_seek_web_to_api.Account.Pool.Admin.plan_reset
    deep_seek_web_to_api.Account.Pool.Admin.prepare_reset
    deep_seek_web_to_api.Account.Pool.Admin.refresh_health
    deep_seek_web_to_api.Account.Pool.Wait.enqueue wait_cancelled
    deep_seek_web_to_api.Account.Pool.account_health deep_seek_web_to_api.Account.Pool.bump_queue
    deep_seek_web_to_api.Account.Pool.can_queue deep_seek_web_to_api.Account.Pool.drain_waiters
    deep_seek_web_to_api.Account.Pool.has_room deep_seek_web_to_api.Account.Pool.remove_waiter
    deep_seek_web_to_api.Account.Pool.take_slot deep_seek_web_to_api.Account.Pool.without_first
    deep_seek_web_to_api.Account.Pool.without_waiter
    deep_seek_web_to_api.Config.Account.looks_like_email_identifier
    deep_seek_web_to_api.Config.Mobile.canonical_mobile_key
    deep_seek_web_to_api.Config.Store.candidates
    deep_seek_web_to_api.Config.Store.find_account_index
    deep_seek_web_to_api.Config.Store.find_indexed deep_seek_web_to_api.Config.Store.index_from
    deep_seek_web_to_api.Config.Store.runtime_account_max_inflight
    deep_seek_web_to_api.Config.Store.runtime_account_max_queue
    deep_seek_web_to_api.Config.Store.runtime_global_max_inflight
    deep_seek_web_to_api.Prelude.Text.contains_char deep_seek_web_to_api.Prelude.Text.trim_left
    deep_seek_web_to_api.Prelude.Text.trim_right
line_lem = (refl, refl, refl, refl)

only_first : (v : ℕ) → occurrences v before_pool.waiters ≢ 0 → occurrences v after_pool.waiters ≡ 0
only_first v h =
    let here : occurrences v (0 ∷ []) ≢ 0 = subst (λ ws. occurrences v ws ≢ 0) line_lem.0 h in
    subst (λ ws. occurrences v ws ≡ 0) (sym line_lem.2) (ground (arith, here))

release-wakes_longest_example :
    ((release after_pool "a@b").closed ≡ 1 ∷ after_pool.closed)
    × (after_pool.waiters ≡ 1 ∷ (release after_pool "a@b").waiters)
release-wakes_longest_example =
    release-wakes_longest small_store test_affinity 0 6 first_calls later_calls "" "a@b" nobody 1
      before_pool after_pool refl line_lem.1 refl
      (λ none_left.
        let wrong : occurrences 1 (1 ∷ 2 ∷ []) ≡ 0 =
          subst (λ ws. occurrences 1 ws ≡ 0) line_lem.2 none_left in
        ground (arith, wrong))
      only_first refl (omega (arith, line_lem.3))
