-- ===== src/Session/Store/Selection.antt =====
-- Which branch the loop of `PrepareWithMaxTurns` selects (internal/upstreamsession/store.go).
use deep_seek_web_to_api.Prelude.{
  ℕ, zero, suc, ◌≤◌, ◌≡◌, sym, ap, ◌∙◌, true, false, none, some, List, [], ◌∷◌, ◌⊎◌, inl, inr,
  get_elem?, arith, Bool-cases, Option-cases,
}
use deep_seek_web_to_api.Session.Message.{Value}
use deep_seek_web_to_api.Session.Match.{Mode, strict_prefix, sliding_suffix, match_branch_extension}
use deep_seek_web_to_api.Session.Branch.{Scope, Entry}
use deep_seek_web_to_api.Session.Store.{Selected, is_candidate, is_better, consider, select_branch}

abbrev pub Member : Entry → List Entry → Type 0
Member e items = (i : ℕ) × (get_elem? items i ≡ some e)

-- The branch may be leased, and the conversation extends it.
abbrev pub Matches : Scope → List Value → Entry → ℕ → Mode → Type 0
Matches scope current e n mode =
    (is_candidate scope e ≡ true)
    × (match_branch_extension current e.request_messages e.response_messages ≡ some (n, mode))

-- One more than the number of messages that the selected branch holds, 0 for none.
abbrev pub rank : Selected → ℕ
rank none = 0
rank (some (e, n, mode)) = suc n

-- No match of the branch has a higher rank.
abbrev pub Ranks : Scope → List Value → ℕ → Entry → Type 0
Ranks scope current r e = (n : ℕ) (mode : Mode) → Matches scope current e n mode → suc n ≤ r

-- One round of the loop.
consider-cases :
    (scope : Scope) (current : List Value) (selected : Selected) (e : Entry)
    → (consider scope current selected e ≡ selected)
      ⊎ ((n : ℕ) × (mode : Mode) × (consider scope current selected e ≡ some (e, n, mode))
          × Matches scope current e n mode
          × (is_better n selected ≡ true))
unfolding consider
consider-cases scope current selected e = elim (Bool-cases (is_candidate scope e)) [
  | inr t ↦ inl (ground (arith, t))
  | inl t ↦
      elim (Option-cases (match_branch_extension current e.request_messages e.response_messages)) [
        | inl m ↦ inl (ground (arith, t, m))
        | inr ((n, mode), m) ↦ elim (Bool-cases (is_better n selected)) [
          | inl b ↦ inr (n, mode, ground (arith, t, m, b), (t, m), b)
          | inr b ↦ inl (ground (arith, t, m, b))
        ]
      ]
]

is_better-rank : (n : ℕ) (selected : Selected) → is_better n selected ≡ true → rank selected ≤ suc n
unfolding is_better
is_better-rank n none h = omega arith
is_better-rank n (some (e, m, strict_prefix)) h = ground arith
is_better-rank n (some (e, m, sliding_suffix)) h = ground arith

consider-rank :
    (scope : Scope) (current : List Value) (selected : Selected) (e : Entry)
    → rank selected ≤ rank (consider scope current selected e)
consider-rank scope current selected e = elim (consider-cases scope current selected e) [
  | inl same ↦ rw same (omega arith)
  | inr (n, mode, new, _, better) ↦ rw new (is_better-rank n selected better)
]

worse-rank : (n : ℕ) (selected : Selected) → is_better n selected ≡ false → suc n ≤ rank selected
unfolding is_better
worse-rank n none h = cc
worse-rank n (some (e, m, strict_prefix)) h = ground arith
worse-rank n (some (e, m, sliding_suffix)) h = ground arith

consider-Ranks :
    (scope : Scope) (current : List Value) (selected : Selected) (e : Entry)
    → Ranks scope current (rank (consider scope current selected e)) e
unfolding consider
consider-Ranks scope current selected e n mode (t, m) = elim (Bool-cases (is_better n selected)) [
  | inl b ↦ rw (t, m, b) (omega arith)
  | inr b ↦ rw (t, m, b) (worse-rank n selected b)
]

select_branch-rank :
    (scope : Scope) (current : List Value) (selected : Selected) (items : List Entry)
    → rank selected ≤ rank (select_branch scope current selected items)
unfolding select_branch
select_branch-rank scope current selected [] = omega arith
select_branch-rank scope current selected (e ∷ rest) = omega (
  arith,
  consider-rank scope current selected e,
  select_branch-rank scope current (consider scope current selected e) rest,
)

pub select_branch-Ranks :
    (scope : Scope) (current : List Value) (selected : Selected) (items : List Entry) (e : Entry)
    → Member e items
    → Ranks scope current (rank (select_branch scope current selected items)) e
unfolding select_branch
select_branch-Ranks scope current selected [] e (i, at) n mode m = cc
select_branch-Ranks scope current selected (x ∷ rest) e (zero, at) n mode m =
    let same : x ≡ e = ground (arith, at) in
    let mine : Matches scope current x n mode = rw same m in
    omega (
      arith,
      consider-Ranks scope current selected x n mode mine,
      select_branch-rank scope current (consider scope current selected x) rest,
    )
select_branch-Ranks scope current selected (x ∷ rest) e (suc i, at) n mode m =
    select_branch-Ranks scope current (consider scope current selected x) rest e (i, at) n mode m

pub select_branch-Matches :
    (scope : Scope) (current : List Value) (selected : Selected) (items : List Entry) (e : Entry)
    (n : ℕ) (mode : Mode)
    → select_branch scope current selected items ≡ some (e, n, mode)
    → (selected ≡ some (e, n, mode)) ⊎ (Member e items × Matches scope current e n mode)
unfolding select_branch
select_branch-Matches scope current selected [] e n mode h = inl h
select_branch-Matches scope current selected (x ∷ rest) e n mode h =
    elim (select_branch-Matches scope current (consider scope current selected x) rest e n mode h) [
      | inr ((i, at), m) ↦ inr ((suc i, at), m)
      | inl found ↦ elim (consider-cases scope current selected x) [
        | inl same ↦ inl (sym same ∙ found)
        | inr (k, w, new, m, better) ↦
            let pair : some (x, k, w) ≡ some (e, n, mode) = sym new ∙ found in
            let one : x ≡ e = cc pair in
            let two : k ≡ n = cc pair in
            let three : w ≡ mode = cc pair in
            let here : Member e (x ∷ rest) = (zero, ap some one) in
            let fits : Matches scope current e n mode =
              (ground (arith, m, one), ground (arith, m, one, two, three)) in
            inr (here, fits)
      ]
    ]
