-- ===== src/Session/Match/Sound.antt =====
-- What a match of a branch means (internal/upstreamsession/store.go, `matchBranchExtension`).
use mathlib.Core.Path.{ap₂}
use deep_seek_web_to_api.Prelude.{
  ℕ, ◌+◌, ◌-◌, ◌≤◌, ◌<◌, ◌≡◌, sym, ap, subst, ◌∙◌, true, some, List, ◌++◌, length, take, drop, ltb,
  if◌then◌else◌, arith, Bool-cases, Option-cases, inl, inr, length-take, length-drop, take-add,
}
use deep_seek_web_to_api.Session.Message.{Value}
use deep_seek_web_to_api.Session.Match.{
  Mode, strict_prefix, sliding_suffix, message_prefix_equal, raw_messages_equal,
  leading_system_count, contain_role, overlaps, largest_overlap, max_overlap, strict_match,
  sliding_match, match_branch_extension,
}
use deep_seek_web_to_api.Session.Match.Prefix.{
  message_prefix_equal-take, raw_messages_equal_sound, leading_system_count-le,
  largest_overlap-some,
}

-- The messages that the branch holds are, whole and in order, the start of the conversation, and
-- something new follows.
abbrev pub IsStrict : List Value → List Value → List Value → ℕ → Type 0
IsStrict current request response n = (n < length current) × (take n current ≡ request ++ response)

-- The start of the conversation is the branch's leading system messages and an end of what it holds
-- behind those: all of the last response, and before it a user message; something new follows.
abbrev pub IsSliding : List Value → List Value → List Value → ℕ → Type 0
IsSliding current request response n =
    let system = leading_system_count request in
    let stored = drop system request ++ response in
    (overlap : ℕ) × (n ≡ system + overlap)
    × (n < length current)
    × (length response < overlap)
    × (take n current ≡ take system request ++ drop (length stored - overlap) stored)
    × (contain_role
          (take (length stored - length response - (length stored - overlap))
            (drop (length stored - overlap) stored))
          "user"
        ≡ true)

abbrev pub Extends : List Value → List Value → List Value → ℕ → Mode → Type 0
Extends current request response n strict_prefix = IsStrict current request response n
Extends current request response n sliding_suffix = IsSliding current request response n

strict_match_sound :
    (current request response : List Value)
    → strict_match current request response ≡ true
    → IsStrict current request response (length request + length response)
unfolding strict_match
strict_match_sound current request response h =
    let p : message_prefix_equal current request 0 ≡ true = ground arith in
    let q : message_prefix_equal current response (length request) ≡ true = ground arith in
    (
      ground arith,
      take-add (length request) (length response) current
          ∙ ap₂ (λ x y. x ++ y) (message_prefix_equal-take current request 0 p)
              (message_prefix_equal-take current response (length request) q),
    )

-- The overlap that the search settled on, from the equation of the match.
sliding_parts :
    (current request response : List Value) (n : ℕ)
    → sliding_match current request response ≡ some n
    → let system = leading_system_count request in
      let stored = drop system request ++ response in
      let conversation = drop system current in
      (o : ℕ) × (n ≡ system + o)
      × (largest_overlap conversation stored (length response) (max_overlap conversation stored)
          ≡ some o)
      × (system ≡ leading_system_count current)
      × (message_prefix_equal current (take system request) 0 ≡ true)
unfolding sliding_match
sliding_parts current request response n h =
    let system = leading_system_count request in
    let stored = drop system request ++ response in
    let conversation = drop system current in
    elim (Option-cases
      (largest_overlap conversation stored (length response) (max_overlap conversation stored))) [
        | inl e ↦ ground (arith, e)
        | inr (o, e) ↦ (o, ground (arith, e), e, ground (arith, e), ground (arith, e))
      ]

sliding_bounds :
    (a b r o : ℕ) → r < o → o ≤ (if ltb (a - 1) b then a - 1 else b) → (o < a) × (o ≤ b)
sliding_bounds a b r o l h = ground arith

overlaps_parts :
    (conversation stored : List Value) (r o : ℕ)
    → overlaps conversation stored r o ≡ true
    → (take o conversation ≡ drop (length stored - o) stored)
      × (contain_role
            (take (length stored - r - (length stored - o)) (drop (length stored - o) stored))
            "user"
          ≡ true)
unfolding overlaps
overlaps_parts conversation stored r o h =
    let end = drop (length stored - o) stored in
    let p : raw_messages_equal (take o conversation) end ≡ true = ground arith in
    (raw_messages_equal_sound (take o conversation) end p, ground arith)

-- The leading system messages are the same, and the overlap follows them.
take_sliding :
    (current request overlap : List Value) (o : ℕ)
    → leading_system_count request ≡ leading_system_count current
    → message_prefix_equal current (take (leading_system_count request) request) 0 ≡ true
    → take o (drop (leading_system_count request) current) ≡ overlap
    → take (leading_system_count request + o) current
      ≡ take (leading_system_count request) request ++ overlap
take_sliding current request overlap o count prefix h =
    let system = leading_system_count request in
    let size : length (take system request) ≡ system =
      ground (arith, length-take system request, leading_system_count-le request) in
    let start : take (length (take system request)) current ≡ take system request =
      message_prefix_equal-take current (take system request) 0 prefix in
    take-add system o current ∙ ap₂ (λ x y. x ++ y) (ap (λ k. take k current) (sym size) ∙ start) h

sliding_match_sound :
    (current request response : List Value) (n : ℕ)
    → sliding_match current request response ≡ some n
    → IsSliding current request response n
sliding_match_sound current request response n h =
    let system = leading_system_count request in
    let stored = drop system request ++ response in
    let conversation = drop system current in
    let (o, sum, found, count, prefix) = sliding_parts current request response n h in
    let (most, least, same) =
      largest_overlap-some conversation stored (length response) (max_overlap conversation stored) o
        found in
    let (equal, user) = overlaps_parts conversation stored (length response) o same in
    let (fits, _) =
      sliding_bounds (length conversation) (length stored) (length response) o least most in
    (
      o,
      sum,
      ground (arith, length-drop system current),
      least,
      ap (λ k. take k current) sum
          ∙ take_sliding current request (drop (length stored - o) stored) o count prefix equal,
      user,
    )

-- A match says what it means, in each of the two modes; the messages that are left over, at least
-- one, are all that the upstream has not seen.
pub match_branch_extension_sound :
    (current request response : List Value) (n : ℕ) (mode : Mode)
    → match_branch_extension current request response ≡ some (n, mode)
    → Extends current request response n mode
unfolding match_branch_extension
match_branch_extension_sound current request response n strict_prefix h =
    elim (Bool-cases (strict_match current request response)) [
      | inl s ↦
          let e : length request + length response ≡ n = ground (arith, s) in
          subst (IsStrict current request response) e
            (strict_match_sound current request response s)
      | inr s ↦ ground (arith, s)
    ]
match_branch_extension_sound current request response n sliding_suffix h =
    elim (Bool-cases (strict_match current request response)) [
      | inl s ↦ ground (arith, s)
      | inr s ↦ elim (Option-cases (sliding_match current request response)) [
        | inl e ↦ ground (arith, s, e)
        | inr (m, e) ↦
            let same : m ≡ n = ground (arith, s, e) in
            sliding_match_sound current request response n (e ∙ ap some same)
      ]
    ]
