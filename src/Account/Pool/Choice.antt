-- ===== src/Account/Pool/Choice.antt =====
-- Which account `Acquire` picks (internal/account/pool_acquire.go, pool_limits.go).
pub mod Preferred
use deep_seek_web_to_api.Prelude.{
  ℕ, ◌≡◌, refl, sym, ap, ◌∙◌, Bool, true, false, not, ◌&&◌, Option, none, some, List, [], ◌∷◌,
  arith, inl, inr, Bool-cases, Option-cases, if◌then◌else◌,
}
use deep_seek_web_to_api.Prelude.Text.{String, is_empty, eq_iff}
use deep_seek_web_to_api.Prelude.Dict.{Dict, lookup, delete, lookup-delete}
use deep_seek_web_to_api.Config.Account.{Account}
use deep_seek_web_to_api.Config.Store.{find_account}
use deep_seek_web_to_api.Account.Health.{Health, is_over}
use deep_seek_web_to_api.Account.Pool.{
  Pool, Exclude, account_health, has_room, can_acquire_id, take_slot, try_from, try_acquire,
  acquire_target, acquire,
}

-- The health entry that still blocks the account.
abbrev pub blocking : ℕ → Dict Health → String → Option Health
blocking now m id = elim (lookup id m) [
  | none ↦ none
  | some h ↦ if is_over now h then none else some h
]

abbrev pub is_enabled : Pool → String → Bool
is_enabled p id = elim (find_account p.store id) [ none ↦ false | some acc ↦ not acc.disabled ]

-- An account that may take one more request: named, known and enabled, in good health at `now`,
-- and with room under both limits.
unfoldable pub admissible : Pool → ℕ → String → Bool
admissible p now id =
    not (is_empty id)
    && is_enabled p id
    && elim (blocking now p.health id) [ none ↦ true | some h ↦ false ]
    && has_room p id

pub admissible_parts :
    (p : Pool) (now : ℕ) (id : String)
    → admissible p now id ≡ true
    → (is_empty id ≡ false)
      × (is_enabled p id ≡ true)
      × (blocking now p.health id ≡ none)
      × (has_room p id ≡ true)
unfolding admissible
admissible_parts p now id h = ground arith

-- The first such account of the queue that is not excluded.
unfoldable pub first_admissible : Pool → ℕ → Exclude → List String → Option String
first_admissible p now exclude [] = none
first_admissible p now exclude (id ∷ ids) =
    let rest = first_admissible p now exclude ids in
    if not (exclude id) && admissible p now id then some id else rest

-- Only entries whose cooldown is over are gone.
abbrev pub Calm : ℕ → Dict Health → Dict Health → Type 0
Calm now before after = (id : String) → blocking now after id ≡ blocking now before id

delete-Calm :
    (now : ℕ) (m : Dict Health) (id : String) (h : Health)
    → lookup id m ≡ some h
    → is_over now h ≡ true
    → Calm now m (delete id m)
delete-Calm now m id h e o j = ground (arith, lookup-delete id j m, eq_iff id j)

pub account_health_lem :
    (p : Pool) (now : ℕ) (id : String)
    → (m : Dict Health) × Calm now p.health m
      × (account_health p now id ≡ (record p { health = m }, blocking now p.health id))
unfolding account_health
account_health_lem p now id = elim (Option-cases (lookup id p.health)) [
  | inl e ↦ (p.health, (λ j. refl), ground arith)
  | inr (h, e) ↦ elim (Bool-cases (is_over now h)) [
    | inl o ↦ (delete id p.health, delete-Calm now p.health id h e o, ground arith)
    | inr o ↦ (p.health, (λ j. refl), ground arith)
  ]
]

can_acquire_id_lem :
    (p : Pool) (now : ℕ) (id : String)
    → (m : Dict Health) × Calm now p.health m
      × (can_acquire_id p now id ≡ (record p { health = m }, admissible p now id))
unfolding can_acquire_id admissible has_room
can_acquire_id_lem p now id = elim (Bool-cases (is_empty id)) [
  | inl e ↦ (p.health, (λ j. refl), ground arith)
  | inr e ↦ elim (Option-cases (find_account p.store id)) [
    | inl f ↦ (p.health, (λ j. refl), ground arith)
    | inr (acc, f) ↦ elim (Bool-cases acc.disabled) [
      | inl d ↦ (p.health, (λ j. refl), ground arith)
      | inr d ↦ let (m, calm, g) = account_health_lem p now id in (m, calm, ground (arith, g))
    ]
  ]
]

admissible-Calm :
    (p : Pool) (now : ℕ) (m : Dict Health) (id : String)
    → Calm now p.health m
    → admissible (record p { health = m }) now id ≡ admissible p now id
unfolding admissible has_room
admissible-Calm p now m id calm = rw (calm id)

pub first_admissible-Calm :
    (p : Pool) (now : ℕ) (m : Dict Health) (exclude : Exclude) (ids : List String)
    → Calm now p.health m
    → first_admissible (record p { health = m }) now exclude ids
      ≡ first_admissible p now exclude ids
unfolding first_admissible
first_admissible-Calm p now m exclude [] calm = refl
first_admissible-Calm p now m exclude (id ∷ ids) calm =
    rw (admissible-Calm p now m id calm, first_admissible-Calm p now m exclude ids calm)

-- What the pool becomes, and the account handed out, for a choice of an account.
abbrev pub chosen : Pool → Dict Health → Option String → Pool × Option Account
chosen p m none = (record p { health = m }, none)
chosen p m (some id) = (take_slot (record p { health = m }) id, find_account p.store id)

pub enabled_found :
    (p : Pool) (now : ℕ) (id : String)
    → admissible p now id ≡ true
    → (acc : Account) × (find_account p.store id ≡ some acc)
unfolding admissible
enabled_found p now id h = elim (Option-cases (find_account p.store id)) [
  | inl e ↦ absurd (ground arith)
  | inr found ↦ found
]

pub chosen-health :
    (p : Pool) (m m' : Dict Health) (choice : Option String)
    → chosen (record p { health = m }) m' choice ≡ chosen p m' choice
chosen-health p m m' none = refl
chosen-health p m m' (some id) = refl

pub try_from_lem :
    (p : Pool) (now : ℕ) (exclude : Exclude) (ids : List String)
    → (m : Dict Health) × Calm now p.health m
      × (try_from p now exclude ids ≡ chosen p m (first_admissible p now exclude ids))
unfolding try_from first_admissible
try_from_lem p now exclude [] = (p.health, (λ j. refl), refl)
try_from_lem p now exclude (id ∷ ids) = elim (Bool-cases (exclude id)) [
  | inl x ↦ let (m, calm, e) = try_from_lem p now exclude ids in (m, calm, rw x e)
  | inr x ↦
      let (m, calm, e) = can_acquire_id_lem p now id in
      elim (Bool-cases (admissible p now id)) [
        | inl a ↦ let (acc, f) = enabled_found p now id a in (m, calm, ground (arith, e))
        | inr a ↦
            let q : Pool = record p { health = m } in
            let (m', calm', e') = try_from_lem q now exclude ids in
            (
              m',
              (λ j. calm' j ∙ calm j),
              rw (a) (
                  ground (
                    arith,
                    e,
                    e',
                    first_admissible-Calm p now m exclude ids calm,
                    chosen-health p m m' (first_admissible p now exclude ids),
                  )),
            )
      ]
]

-- The account that a call takes a slot of, if any: the target if it is admissible and not
-- excluded, and without a target the first such account of the queue.
unfoldable pub choice : Pool → ℕ → String → Exclude → Option String
choice p now target exclude =
    if is_empty target
    then first_admissible p now exclude p.queue
    else if not (exclude target) && admissible p now target
    then some target
    else none

acquire_target_lem :
    (p : Pool) (now : ℕ) (target : String) (exclude : Exclude)
    → (m : Dict Health) × Calm now p.health m
      × (acquire_target p now target exclude
          ≡ chosen p m
              (if not (exclude target) && admissible p now target then some target else none))
unfolding acquire_target
acquire_target_lem p now target exclude = elim (Bool-cases (exclude target)) [
  | inl x ↦ (p.health, (λ j. refl), rw x refl)
  | inr x ↦
      let (m, calm, e) = can_acquire_id_lem p now target in
      elim (Bool-cases (admissible p now target)) [
        | inl a ↦ let (acc, f) = enabled_found p now target a in (m, calm, ground (arith, e))
        | inr a ↦ (m, calm, ground (arith, e))
      ]
]

-- `Acquire` takes one slot of exactly the account that `choice` names, returns its record, and
-- returns none and takes nothing where there is no such account. Of the health entries, only those
-- whose cooldown is over are dropped.
pub acquire-choice :
    (p : Pool) (now : ℕ) (target : String) (exclude : Exclude)
    → (m : Dict Health) × Calm now p.health m
      × (acquire p now target exclude ≡ chosen p m (choice p now target exclude))
unfolding acquire choice try_acquire
acquire-choice p now target exclude = elim (Bool-cases (is_empty target)) [
  | inl e ↦ let (m, calm, f) = try_from_lem p now exclude p.queue in (m, calm, rw e f)
  | inr e ↦ let (m, calm, f) = acquire_target_lem p now target exclude in (m, calm, rw e f)
]
