-- ===== src/Account/Pool/Choice/Preferred.antt =====
-- `AcquireWaitPreferred` (internal/account/pool_acquire.go): which account it picks.
use deep_seek_web_to_api.Prelude.{
  ℕ, ◌≡◌, ◌∙◌, true, false, Option, none, some, List, [], ◌∷◌, arith, inl, inr, Bool-cases,
  Option-cases,
}
use deep_seek_web_to_api.Prelude.Text.{String, is_empty}
use deep_seek_web_to_api.Prelude.Dict.{Dict}
use deep_seek_web_to_api.Account.Health.{Health}
use deep_seek_web_to_api.Account.Pool.{Pool, Exclude, try_acquire, acquire, acquire_preferred}
use deep_seek_web_to_api.Account.Pool.Choice.{
  Calm, admissible, first_admissible, first_admissible-Calm, chosen, chosen-health, enabled_found,
  try_from_lem, choice, acquire-choice,
}

pub first_admissible-some :
    (p : Pool) (now : ℕ) (exclude : Exclude) (ids : List String) (id : String)
    → first_admissible p now exclude ids ≡ some id
    → (exclude id ≡ false) × (admissible p now id ≡ true)
unfolding first_admissible
first_admissible-some p now exclude [] id h = cc
first_admissible-some p now exclude (x ∷ ids) id h =
    ground (arith, first_admissible-some p now exclude ids id)

-- A chosen account is admissible and not excluded.
pub choice-some :
    (p : Pool) (now : ℕ) (target : String) (exclude : Exclude) (id : String)
    → choice p now target exclude ≡ some id
    → (exclude id ≡ false) × (admissible p now id ≡ true)
unfolding choice
choice-some p now target exclude id h =
    ground (arith, first_admissible-some p now exclude p.queue id)

pub choice_target :
    (p : Pool) (now : ℕ) (target : String) (exclude : Exclude) (id : String)
    → is_empty target ≡ false
    → choice p now target exclude ≡ some id
    → target ≡ id
unfolding choice
choice_target p now target exclude id e h = ground arith

-- With a preferred account: that one, or else the first of the queue.
unfoldable pub preferred_choice : Pool → ℕ → String → Exclude → Option String
preferred_choice p now preferred exclude = elim (choice p now preferred exclude) [
  | some id ↦ some id
  | none ↦ first_admissible p now exclude p.queue
]

pub preferred_choice-some :
    (p : Pool) (now : ℕ) (preferred : String) (exclude : Exclude) (id : String)
    → preferred_choice p now preferred exclude ≡ some id
    → (exclude id ≡ false) × (admissible p now id ≡ true)
unfolding preferred_choice
preferred_choice-some p now preferred exclude id h =
    ground (
      arith,
      choice-some p now preferred exclude id,
      first_admissible-some p now exclude p.queue id,
    )

choice_empty :
    (p : Pool) (now : ℕ) (preferred : String) (exclude : Exclude)
    → is_empty preferred ≡ true
    → preferred_choice p now preferred exclude ≡ first_admissible p now exclude p.queue
unfolding preferred_choice choice
choice_empty p now preferred exclude e = ground arith

preferred_choice-none :
    (p : Pool) (now : ℕ) (preferred : String) (exclude : Exclude)
    → choice p now preferred exclude ≡ none
    → preferred_choice p now preferred exclude ≡ first_admissible p now exclude p.queue
unfolding preferred_choice
preferred_choice-none p now preferred exclude e = ground arith

-- `AcquireWaitPreferred` tries the preferred account first, and then the queue in its order.
pub acquire_preferred-choice :
    (p : Pool) (now : ℕ) (preferred : String) (exclude : Exclude)
    → (m : Dict Health) × Calm now p.health m
      × (acquire_preferred p now preferred exclude
          ≡ chosen p m (preferred_choice p now preferred exclude))
unfolding acquire_preferred try_acquire
acquire_preferred-choice p now preferred exclude = elim (Bool-cases (is_empty preferred)) [
  | inl e ↦
      let (m, calm, f) = try_from_lem p now exclude p.queue in
      (m, calm, ground (arith, f, choice_empty p now preferred exclude e))
  | inr e ↦
      let (m, calm, f) = acquire-choice p now preferred exclude in
      elim (Option-cases (choice p now preferred exclude)) [
        | inl c ↦
            let q : Pool = record p { health = m } in
            let (m', calm', f') = try_from_lem q now exclude p.queue in
            (m', (λ j. calm' j ∙ calm j), fallback m m' e c f f' calm)
        | inr (id, c) ↦
            let (acc, g) = enabled_found p now id (choice-some p now preferred exclude id c).1 in
            (m, calm, unfold preferred_choice in ground (arith, f, g))
      ]
]
  where
    fallback :
        (m m' : Dict Health)
        → is_empty preferred ≡ false
        → choice p now preferred exclude ≡ none
        → acquire p now preferred exclude ≡ chosen p m (choice p now preferred exclude)
        → try_acquire (record p { health = m }) now exclude
          ≡ chosen
              (record p { health = m })
              m'
              (first_admissible (record p { health = m }) now exclude p.queue)
        → Calm now p.health m
        → acquire_preferred p now preferred exclude
          ≡ chosen p m' (preferred_choice p now preferred exclude)
    fallback m m' e c f f' calm = ground (
      arith,
      preferred_choice-none p now preferred exclude c,
      first_admissible-Calm p now m exclude p.queue calm,
      chosen-health p m m' (first_admissible p now exclude p.queue),
    )
