-- ===== src/Auth/DirectTokens/Bounds.antt =====
-- How many callers are kept, and for how long (internal/auth/request.go).
use deep_seek_web_to_api.Prelude.{
  ℕ, suc, ◌≤◌, ◌<◌, ◌≡◌, ◌≢◌, refl, sym, ap, ◌∙◌, Bool, true, false, ◌||◌, ◌-◌, ltb, none, some,
  List, [], ◌∷◌, length, leb, if◌then◌else◌, arith, Bool-cases, Option-cases, inl, inr,
}
use deep_seek_web_to_api.Prelude.Text.{String, is_empty, trim_space, str_eq, eq_iff}
use deep_seek_web_to_api.Prelude.Dict.{Dict, lookup, insert, delete, lookup-insert}
use deep_seek_web_to_api.Auth.DirectTokens.{
  max_invalid_direct_token_keys, is_stale, prune, oldest_from, evict_oldest,
  mark_direct_token_invalid, direct_token_blocked,
}

length-insert : (k : String) (v : ℕ) (m : Dict ℕ) → length (insert k v m) ≤ suc (length m)
length-insert k v [] = omega arith
length-insert k v ((j, w) ∷ m) = ground (arith, length-insert k v m)

length-delete : (k : String) (m : Dict ℕ) → length (delete k m) ≤ length m
length-delete k [] = omega arith
length-delete k ((j, w) ∷ m) = ground (arith, length-delete k m)

length-delete-lt : (k : String) (m : Dict ℕ) → lookup k m ≢ none → length (delete k m) < length m
length-delete-lt k [] h = absurd (h refl)
length-delete-lt k ((j, w) ∷ m) h = ground (arith, h, length-delete-lt k m, length-delete k m)

length-prune : (now : ℕ) (m : Dict ℕ) → length (prune now m) ≤ length m
unfolding prune
length-prune now [] = omega arith
length-prune now ((k, at) ∷ m) = ground (arith, length-prune now m)

-- No caller has the empty name.
abbrev pub IsNamed : Dict ℕ → Type 0
IsNamed m = lookup "" m ≡ none

prune-IsNamed : (now : ℕ) (m : Dict ℕ) → IsNamed m → IsNamed (prune now m)
unfolding prune
prune-IsNamed now [] h = refl
prune-IsNamed now ((k, at) ∷ m) h = ground (arith, h, prune-IsNamed now m)

delete-IsNamed : (k : String) (m : Dict ℕ) → IsNamed m → IsNamed (delete k m)
delete-IsNamed k [] h = refl
delete-IsNamed k ((j, at) ∷ m) h = ground (arith, h, delete-IsNamed k m)

-- The caller found by the loop is the first one, or one of the map.
oldest_from-in :
    (oldest : String) (at : ℕ) (m : Dict ℕ)
    → lookup (oldest_from oldest at m) m ≡ none
    → oldest_from oldest at m ≡ oldest
unfolding oldest_from
oldest_from-in oldest at [] h = refl
oldest_from-in oldest at ((j, u) ∷ m) h =
    ground
      (arith, h, eq_iff j (oldest_from j u m), oldest_from-in j u m, oldest_from-in oldest at m)

is_empty_lem : (s : String) → is_empty s ≡ true → s ≡ ""
is_empty_lem String.[] h = refl
is_empty_lem (String.◌∷◌ c s) h = cc h

nonempty_lem : (s : String) → is_empty s ≡ false → str_eq s "" ≡ false
nonempty_lem s h = elim (Bool-cases (str_eq s "")) [
  | inl e ↦
      let same : s ≡ "" = ground (arith, eq_iff s "", e) in
      let wrong : true ≡ false = ap is_empty (sym same) ∙ h in cc wrong
  | inr e ↦ e
]

evict_oldest-lt : (m : Dict ℕ) → IsNamed m → 1 ≤ length m → length (evict_oldest m) < length m
unfolding evict_oldest oldest_from
evict_oldest-lt [] named some_caller = absurd (omega arith)
evict_oldest-lt ((j, u) ∷ m) named some_caller =
    let oldest = oldest_from j u m in
    let present : lookup oldest ((j, u) ∷ m) ≢ none =
      λ absent. ground (arith, absent, eq_iff j oldest, oldest_from-in j u m) in
    elim (Bool-cases (is_empty oldest)) [
      | inl e ↦
          let nameless : lookup oldest ((j, u) ∷ m) ≡ none =
            ap (λ k. lookup k ((j, u) ∷ m)) (is_empty_lem oldest e) ∙ named in
          absurd (present nameless)
      | inr e ↦ rw (evict_oldest, e) (length-delete-lt oldest ((j, u) ∷ m) present)
    ]

evict_oldest-IsNamed : (m : Dict ℕ) → IsNamed m → IsNamed (evict_oldest m)
unfolding evict_oldest
evict_oldest-IsNamed m named = ground (arith, named, delete-IsNamed (oldest_from "" 0 m) m)

-- Few callers, none of them with the empty name.
abbrev pub IsBounded : Dict ℕ → Type 0
IsBounded m = (length m ≤ max_invalid_direct_token_keys) × IsNamed m

mark-IsBounded :
    (use_config_token : Bool) (caller_id : String) (now : ℕ) (m : Dict ℕ)
    → IsBounded m
    → IsBounded (mark_direct_token_invalid use_config_token caller_id now m)
unfolding mark_direct_token_invalid
mark-IsBounded use_config_token caller_id now m (short, named) =
    let caller = trim_space caller_id in
    let pruned = prune now m in
    let room =
      if leb max_invalid_direct_token_keys (length pruned) then evict_oldest pruned else pruned in
    elim (Bool-cases (use_config_token || is_empty caller)) [
      | inl b ↦ rw (mark_direct_token_invalid, b) (short, named)
      | inr b ↦
          let still = prune-IsNamed now m named in
          let free : length room < max_invalid_direct_token_keys =
            ground (arith, length-prune now m, short, evict_oldest-lt pruned still) in
          let kept : IsNamed room = ground (arith, still, evict_oldest-IsNamed pruned still) in
          rw (mark_direct_token_invalid, b)
            (
              omega (arith, free, length-insert caller now room),
              lookup-insert caller "" now room
                  ∙ ground (arith, nonempty_lem caller (ground (arith, b)), kept),
            )
    ]

blocked-IsBounded :
    (caller_id : String) (now : ℕ) (m : Dict ℕ)
    → IsBounded m
    → IsBounded (direct_token_blocked caller_id now m).0
unfolding direct_token_blocked
blocked-IsBounded caller_id now m (short, named) =
    let caller = trim_space caller_id in
    elim (Bool-cases (is_empty caller)) [
      | inl b ↦ rw (direct_token_blocked, b) (short, named)
      | inr b ↦ elim (Option-cases (lookup caller m)) [
        | inl e ↦ rw (direct_token_blocked, b, e) (short, named)
        | inr (marked_at, e) ↦ elim (Bool-cases (is_stale now marked_at)) [
          | inl g ↦
              rw (direct_token_blocked, b, e, g)
                (omega (arith, short, length-delete caller m), delete-IsNamed caller m named)
          | inr g ↦ rw (direct_token_blocked, b, e, g) (short, named)
        ]
      ]
    ]

pub data Call : Type 0 where
  marks : Bool → String → ℕ → Call
  asks : String → ℕ → Call

abbrev pub run : Dict ℕ → List Call → Dict ℕ
run m [] = m
run m (marks use_config_token caller_id now ∷ calls) =
    run (mark_direct_token_invalid use_config_token caller_id now m) calls
run m (asks caller_id now ∷ calls) = run (direct_token_blocked caller_id now m).0 calls

-- Whatever calls follow one another, the map keeps 4096 callers at most, none of them with the empty
-- name, if it does at first.
pub run-IsBounded : (m : Dict ℕ) (calls : List Call) → IsBounded m → IsBounded (run m calls)
run-IsBounded m [] h = h
run-IsBounded m (marks use_config_token caller_id now ∷ calls) h =
    run-IsBounded (mark_direct_token_invalid use_config_token caller_id now m) calls
      (mark-IsBounded use_config_token caller_id now m h)
run-IsBounded m (asks caller_id now ∷ calls) h =
    run-IsBounded (direct_token_blocked caller_id now m).0 calls
      (blocked-IsBounded caller_id now m h)

-- After the token of a caller with a name is marked, the caller is blocked while less than ten minutes
-- (in nanoseconds) have passed and no longer, where no other call is made in between.
pub blocked-mark :
    (caller_id : String) (now later : ℕ) (m : Dict ℕ)
    → is_empty (trim_space caller_id) ≡ false
    → (direct_token_blocked caller_id later (mark_direct_token_invalid false caller_id now m)).1
      ≡ ltb (later - now) 600_000_000_000
unfolding direct_token_blocked mark_direct_token_invalid
blocked-mark caller_id now later m named =
    let caller = trim_space caller_id in
    let pruned = prune now m in
    let room =
      if leb max_invalid_direct_token_keys (length pruned) then evict_oldest pruned else pruned in
    let marked : mark_direct_token_invalid false caller_id now m ≡ insert caller now room =
      rw (mark_direct_token_invalid, named) refl in
    let found : lookup caller (insert caller now room) ≡ some now =
      lookup-insert caller caller now room ∙ ground (arith, eq_iff caller caller) in
    elim (Bool-cases (is_stale later now)) [
      | inl g ↦ rw (marked, direct_token_blocked, named, found, g) (ground (arith, g))
      | inr g ↦ rw (marked, direct_token_blocked, named, found, g) (ground (arith, g))
    ]
