-- ===== src/Session/Store/Exclusive.antt =====
-- A leased branch is not leased again (internal/upstreamsession/store.go).
use deep_seek_web_to_api.Prelude.{
  ℕ, zero, suc, ◌≡◌, ◌≢◌, sym, ap, subst, ◌∙◌, Bool, true, false, not, ◌||◌, some, List, [], ◌∷◌,
  ◌==◌, ==_iff, keep, All, arith, Bool-cases, inl, inr,
}
use deep_seek_web_to_api.Prelude.Text.{String, eq_refl}
use deep_seek_web_to_api.Prelude.Dict.{Dict, insert, Distinct, insert-Distinct, lookup-insert}
use deep_seek_web_to_api.Session.Message.{Value}
use deep_seek_web_to_api.Session.Branch.{
  Scope, Lease, Store, Entry, is_alive, is_nil, scope_key, prune_entries, prune,
}
use deep_seek_web_to_api.Session.Store.{items_at, is_candidate, update_entry, set_busy, prepare}
use deep_seek_web_to_api.Session.Store.Expiry.{lookup-prune_entries, prune-is_alive}
use deep_seek_web_to_api.Session.Store.Selection.{Member}
use deep_seek_web_to_api.Session.Store.Leases.{prepare-Leases}

-- No two branches have the same id.
abbrev pub AreUnique : List Entry → Type 0
AreUnique [] = Unit
AreUnique (e ∷ rest) = All (λ x. (x.id == e.id) ≡ false) rest × AreUnique rest

-- A branch with the id is busy.
abbrev held : ℕ → Entry → Bool
held id x = not (x.id == id) || x.busy

keep-All :
    (P : Entry → Type 0) (p : Entry → Bool) (items : List Entry)
    → All P items
    → All P (keep p items)
keep-All P p [] h = tt
keep-All P p (x ∷ rest) h = elim (Bool-cases (p x)) [
  | inl t ↦ rw t (h.0, keep-All P p rest h.1)
  | inr t ↦ rw t (keep-All P p rest h.1)
]

keep-AreUnique :
    (p : Entry → Bool) (items : List Entry) → AreUnique items → AreUnique (keep p items)
keep-AreUnique p [] h = tt
keep-AreUnique p (x ∷ rest) h = elim (Bool-cases (p x)) [
  | inl t ↦ rw t (keep-All (λ y. (y.id == x.id) ≡ false) p rest h.0, keep-AreUnique p rest h.1)
  | inr t ↦ rw t (keep-AreUnique p rest h.1)
]

other-held :
    (id : ℕ) (x : Entry) (items : List Entry)
    → x.id ≡ id
    → All (λ y. (y.id == x.id) ≡ false) items
    → All (λ y. held id y ≡ true) items
other-held id x [] same h = tt
other-held id x (y ∷ rest) same h = (ground (arith, h.0, same), other-held id x rest same h.1)

update_entry-held :
    (id : ℕ) (items : List Entry)
    → AreUnique items
    → All (λ y. held id y ≡ true) (update_entry id (set_busy true) items)
unfolding update_entry
update_entry-held id [] h = tt
update_entry-held id (x ∷ rest) h = elim (Bool-cases (x.id == id)) [
  | inl t ↦ rw t (ground arith, other-held id x rest ((==_iff x.id id).0 t) h.0)
  | inr t ↦ rw t (ground (arith, t), update_entry-held id rest h.1)
]

Member-held :
    (id : ℕ) (e : Entry) (items : List Entry)
    → All (λ y. held id y ≡ true) items
    → Member e items
    → held id e ≡ true
Member-held id e [] h (i, at) = cc
Member-held id e (x ∷ rest) h (zero, at) =
    let same : x ≡ e = ground (arith, at) in ap (held id) (sym same) ∙ h.0
Member-held id e (x ∷ rest) h (suc i, at) = Member-held id e rest h.1 (i, at)

prune_entries-Distinct :
    (ttl now : ℕ) (m : Dict (List Entry)) → Distinct m → Distinct (prune_entries ttl now m)
unfolding prune_entries
prune_entries-Distinct ttl now [] d = tt
prune_entries-Distinct ttl now ((key, items) ∷ rest) d =
    elim (Bool-cases (is_nil (keep (is_alive ttl now) items))) [
      | inl t ↦ rw t (prune_entries-Distinct ttl now rest d.1)
      | inr t ↦
          rw t (lookup-prune_entries ttl now key rest d.0, prune_entries-Distinct ttl now rest d.1)
    ]

items_at-insert :
    (key : String) (items : List Entry) (m : Dict (List Entry))
    → items_at key (insert key items m) ≡ items
items_at-insert key items m = ground (arith, lookup-insert key key items m, eq_refl key)

prune-Distinct : (s : Store) (now : ℕ) → Distinct s.entries → Distinct (prune s now).entries
unfolding prune
prune-Distinct s now d = prune_entries-Distinct s.ttl now s.entries d

-- After a lease every branch of the scope that has the leased branch's id is busy, also when the
-- store was pruned since.
prepare-held :
    (s : Store) (now : ℕ) (scope : Scope) (messages : List Value) (max_turns : ℕ) (t : Store)
    (l : Lease) (later : ℕ)
    → Distinct s.entries
    → AreUnique (items_at (scope_key scope) s.entries)
    → prepare s now scope messages max_turns ≡ (t, some l)
    → All (λ y. held l.entry_id y ≡ true) (items_at (scope_key scope) (prune t later).entries)
prepare-held s now scope messages max_turns t l later d unique h =
    let key = scope_key scope in
    let pruned = prune s now in
    let (e, _, _, _, _, leases) = prepare-Leases s now scope messages max_turns t l h in
    let marked = update_entry e.id (set_busy true) (items_at key pruned.entries) in
    let entries : t.entries ≡ insert key marked pruned.entries = ap (λ x. x.entries) leases.0 in
    let unique_left : AreUnique (items_at key pruned.entries) =
      subst AreUnique (sym (prune-is_alive s now key d))
        (keep-AreUnique (is_alive s.ttl now) (items_at key s.entries) unique) in
    let distinct : Distinct t.entries =
      subst Distinct (sym entries)
        (insert-Distinct key marked pruned.entries (prune-Distinct s now d)) in
    let listed : items_at key t.entries ≡ marked =
      ap (items_at key) entries ∙ items_at-insert key marked pruned.entries in
    rw (prune-is_alive t later key distinct, listed, leases.1)
      (keep-All (λ y. held e.id y ≡ true) (is_alive t.ttl later) marked
        (update_entry-held e.id (items_at key pruned.entries) unique_left))

-- While a lease lasts, a second call for the same scope does not lease the same branch, whatever its
-- messages and its time: it gets another branch or none. The store lists each scope once, and the
-- branches of the scope have different ids.
pub prepare_twice :
    (s : Store) (now later : ℕ) (scope : Scope) (messages other : List Value) (max_turns : ℕ)
    (t u : Store) (l k : Lease)
    → Distinct s.entries
    → AreUnique (items_at (scope_key scope) s.entries)
    → prepare s now scope messages max_turns ≡ (t, some l)
    → prepare t later scope other max_turns ≡ (u, some k)
    → k.entry_id ≢ l.entry_id
unfolding is_candidate
prepare_twice s now later scope messages other max_turns t u l k d unique h g same =
    let (e, _, here, candidate, _, leases) = prepare-Leases t later scope other max_turns u k g in
    let busy =
      Member-held l.entry_id e (items_at (scope_key scope) (prune t later).entries)
        (prepare-held s now scope messages max_turns t l later d unique h) here in
    let free : e.busy ≡ false = ground (arith, candidate) in
    ground (arith, busy, free, ==_iff e.id l.entry_id, sym leases.1 ∙ same)
