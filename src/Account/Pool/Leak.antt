-- ===== src/Account/Pool/Leak.antt =====
-- What a slot that is taken and given back leaves (internal/account/pool_acquire.go, pool_core.go,
-- and the caller, internal/auth/request.go, which releases `acc.Identifier()`).
use deep_seek_web_to_api.Prelude.{
  ℕ, suc, zero, ◌+◌, ◌≡◌, refl, ◌∙◌, true, false, some, arith, inl, inr, Option-cases,
  if◌then◌else◌,
}
use deep_seek_web_to_api.Prelude.Int.{pos, ltb_ℤ}
use deep_seek_web_to_api.Prelude.Text.{String, is_empty, str_eq, eq_iff}
use deep_seek_web_to_api.Prelude.Dict.{
  insert, count, total, Distinct, total-insert, total-delete, count-insert, count-delete,
  insert-Distinct,
}
use deep_seek_web_to_api.Config.Account.{Account, identifier}
use deep_seek_web_to_api.Account.Pool.{
  has_room, Pool, Exclude, notify_waiter, take_slot, acquire, give_back, release,
}
use deep_seek_web_to_api.Account.Pool.Choice.{admissible, admissible_parts, choice, acquire-choice}
use deep_seek_web_to_api.Account.Pool.Choice.Preferred.{choice-some, choice_target}

give_back-count :
    (p : Pool) (id : String) (n : ℕ) (j : String)
    → count j (give_back p id (suc n)).in_use ≡ (if str_eq id j then n else count j p.in_use)
unfolding give_back notify_waiter
give_back-count p id zero j = ground (arith, count-delete id j p.in_use)
give_back-count p id (suc n) j = ground (arith, count-insert id j (suc n) p.in_use)

give_back-total :
    (p : Pool) (id : String) (n : ℕ)
    → Distinct p.in_use
    → count id p.in_use ≡ suc n
    → total (give_back p id (suc n)).in_use + 1 ≡ total p.in_use
unfolding give_back notify_waiter
give_back-total p id zero d e = ground (arith, total-delete id p.in_use d)
give_back-total p id (suc n) d e = ground (arith, total-insert id (suc n) p.in_use)

give_back-other :
    (p : Pool) (id : String) (n : ℕ) (j : String)
    → str_eq id j ≡ false
    → count j (give_back p id n).in_use ≡ count j p.in_use
unfolding give_back notify_waiter
give_back-other p id zero j h = refl
give_back-other p id (suc zero) j h = ground (arith, count-delete id j p.in_use)
give_back-other p id (suc (suc n)) j h = ground (arith, count-insert id j (suc n) p.in_use)

release-other :
    (p : Pool) (id j : String)
    → str_eq id j ≡ false
    → count j (release p id).in_use ≡ count j p.in_use
unfolding release
release-other p id j h = ground (arith, give_back-other p id (count id p.in_use) j)

taken : (p : Pool) (id : String) → count id (take_slot p id).in_use ≡ suc (count id p.in_use)
unfolding take_slot
taken p id = ground (arith, count-insert id id (count id p.in_use + 1) p.in_use, eq_iff id id)

release-take_slot :
    (p : Pool) (id : String)
    → is_empty id ≡ false
    → release (take_slot p id) id ≡ give_back (take_slot p id) id (suc (count id p.in_use))
unfolding release
release-take_slot p id e = rw (e, taken p id) refl

-- The slot that `Acquire` took, given back under the identifier that it was taken under: every
-- account holds as many slots as before, and so do all together.
pub release-acquire :
    (p : Pool) (now : ℕ) (target : String) (exclude : Exclude) (id : String)
    → choice p now target exclude ≡ some id
    → Distinct p.in_use
    → let q = release (acquire p now target exclude).0 id in
      ((j : String) → count j q.in_use ≡ count j p.in_use) × (total q.in_use ≡ total p.in_use)
release-acquire p now target exclude id c d =
    let (m, calm, e) = acquire-choice p now target exclude in
    let named = (admissible_parts p now id (choice-some p now target exclude id c).1).0 in
    let r : Pool = record p { health = m } in
    rw (e, c, release-take_slot r id named) (each r, all r d)
  where
    each :
        (r : Pool) (j : String)
        → count j (give_back (take_slot r id) id (suc (count id r.in_use))).in_use
          ≡ count j r.in_use
    each r j =
        unfold take_slot in
        ground (
          arith,
          give_back-count (take_slot r id) id (count id r.in_use) j,
          count-insert id j (count id r.in_use + 1) r.in_use,
          eq_iff id j,
        )

    all :
        (r : Pool)
        → Distinct r.in_use
        → total (give_back (take_slot r id) id (suc (count id r.in_use))).in_use ≡ total r.in_use
    all r d =
        unfold take_slot in
        ground (
          arith,
          give_back-total (take_slot r id) id (count id r.in_use)
              (insert-Distinct id (count id r.in_use + 1) r.in_use d) (taken r id),
          total-insert id (count id r.in_use + 1) r.in_use,
        )

-- Where a request names its account by another spelling of the identifier, as `FindAccount` allows
-- for a mobile number, the slot is taken under that spelling; the release of `acc.Identifier()`
-- then leaves it taken.
pub release-acquire_alias :
    (p : Pool) (now : ℕ) (target : String) (exclude : Exclude) (acc : Account)
    → is_empty target ≡ false
    → (acquire p now target exclude).1 ≡ some acc
    → str_eq (identifier acc) target ≡ false
    → let q = release (acquire p now target exclude).0 (identifier acc) in
      count target q.in_use ≡ count target p.in_use + 1
release-acquire_alias p now target exclude acc e a other =
    let (m, calm, f) = acquire-choice p now target exclude in
    elim (Option-cases (choice p now target exclude)) [
      | inl c ↦ absurd (ground (arith, f))
      | inr (id, c) ↦
          let same = choice_target p now target exclude id e c in
          rw (f, c, ← same)
            (release-other (take_slot (record p { health = m }) target) (identifier acc) target
                other
              ∙ taken (record p { health = m }) target
              ∙ omega arith)
    ]

-- However many slots are counted under the identifier of an account, a request that names the
-- account by another spelling gets it as before, while the global limit leaves room.
pub acquire-crowded_alias :
    (p : Pool) (now n : ℕ) (target : String) (exclude : Exclude) (acc : Account)
    → is_empty target ≡ false
    → str_eq (identifier acc) target ≡ false
    → (acquire p now target exclude).1 ≡ some acc
    → ltb_ℤ (pos (total (insert (identifier acc) n p.in_use))) p.global_max_inflight ≡ true
    → (acquire (record p { in_use = insert (identifier acc) n p.in_use }) now target exclude).1
      ≡ some acc
acquire-crowded_alias p now n target exclude acc t other a room =
    let q : Pool = record p { in_use = insert (identifier acc) n p.in_use } in
    let (m, calm, f) = acquire-choice p now target exclude in
    let (l, still, g) = acquire-choice q now target exclude in
    elim (Option-cases (choice p now target exclude)) [
      | inl c ↦ absurd (ground (arith, a, f, c))
      | inr (id, c) ↦
          let same : choice q now target exclude ≡ some id = again id c in
          ground (arith, a, f, g, same, c)
    ]
  where
    again :
        (id : String)
        → choice p now target exclude ≡ some id
        → choice (record p { in_use = insert (identifier acc) n p.in_use }) now target exclude
          ≡ some id
    again id c =
        unfold choice admissible has_room in
        ground (arith, c, t, other, room, count-insert (identifier acc) target n p.in_use)
