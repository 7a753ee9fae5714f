-- ===== src/Auth/DirectTokens.antt =====
-- internal/auth/request.go: the map `invalidDirectAt`, under its mutex. Time is in nanoseconds.
pub mod Bounds
use deep_seek_web_to_api.Prelude.{
  ℕ, zero, suc, ◌-◌, Bool, true, false, ◌||◌, not, Option, none, some, List, [], ◌∷◌, length, ltb,
  leb, if◌then◌else◌,
}
use deep_seek_web_to_api.Prelude.Text.{String, is_empty, trim_space}
use deep_seek_web_to_api.Prelude.Dict.{Dict, lookup, insert, delete}

abbrev pub invalid_direct_token_ttl : ℕ
invalid_direct_token_ttl = 600000000000

abbrev pub max_invalid_direct_token_keys : ℕ
max_invalid_direct_token_keys = 4096

-- now.Sub(markedAt) >= invalidDirectTokenTTL
abbrev pub is_stale : ℕ → ℕ → Bool
is_stale now marked_at = leb invalid_direct_token_ttl (now - marked_at)

unfoldable pub prune : ℕ → Dict ℕ → Dict ℕ
prune now [] = []
prune now ((caller, marked_at) ∷ m) =
    let rest = prune now m in if is_stale now marked_at then rest else (caller, marked_at) ∷ rest

-- The loop over the map, with the oldest caller so far.
unfoldable pub oldest_from : String → ℕ → Dict ℕ → String
oldest_from oldest at [] = oldest
oldest_from oldest at ((caller, marked_at) ∷ m) =
    if is_empty oldest || ltb marked_at at
    then oldest_from caller marked_at m
    else oldest_from oldest at m

unfoldable pub evict_oldest : Dict ℕ → Dict ℕ
evict_oldest m =
    let oldest = oldest_from "" 0 m in if not (is_empty oldest) then delete oldest m else m

-- `MarkDirectTokenInvalid` of a caller, who uses a token of the configuration or not.
unfoldable pub mark_direct_token_invalid : Bool → String → ℕ → Dict ℕ → Dict ℕ
mark_direct_token_invalid use_config_token caller_id now m =
    let caller = trim_space caller_id in
    let pruned = prune now m in
    if use_config_token || is_empty caller
    then m
    else insert caller now
        (if leb max_invalid_direct_token_keys (length pruned) then evict_oldest pruned else pruned)

-- `directTokenBlocked`
unfoldable pub direct_token_blocked : String → ℕ → Dict ℕ → Dict ℕ × Bool
direct_token_blocked caller_id now m =
    let caller = trim_space caller_id in
    if is_empty caller then (m, false) else elim (lookup caller m) [
      | none ↦ (m, false)
      | some marked_at ↦ if is_stale now marked_at then (delete caller m, false) else (m, true)
    ]
