-- ===== src/Account/Affinity/Bindings.antt =====
-- How long a conversation stays bound to its account (internal/account/affinity.go).
use deep_seek_web_to_api.Prelude.{
  ℕ, ◌+◌, ◌≡◌, ◌≢◌, refl, sym, ap, ◌∙◌, ◌⊎◌, ◌||◌, false, some, [], ◌∷◌, ltb, if◌then◌else◌, arith,
  Bool-cases, Option-cases, inl, inr,
}
use deep_seek_web_to_api.Prelude.Text.{String, is_empty, str_eq, eq_iff}
use deep_seek_web_to_api.Prelude.Dict.{Dict, lookup, lookup-insert}
use deep_seek_web_to_api.Account.Affinity.{
  AffinityEntry, Affinity, lookup_binding, bind, without_account, forget_account,
}

-- A binding is found until its time to live is over, and then no longer; the bindings of other
-- conversations are found as before.
pub lookup_binding-bind :
    (a : Affinity) (bound now : ℕ) (key account_id other : String)
    → is_empty key ≡ false
    → is_empty account_id ≡ false
    → (lookup_binding (bind a bound key account_id) now other).1 ≡ (
        if str_eq key other
        then if ltb (bound + a.ttl) now then "" else account_id
        else (lookup_binding a now other).1)
unfolding lookup_binding bind
lookup_binding-bind a bound now key account_id other k i = ground (
  arith,
  eq_iff key other,
  lookup-insert key other (record { account_id = account_id; expires_at = bound + a.ttl })
      a.bindings,
)

-- What is left of a map points at another account.
lookup-without_account :
    (id key : String) (m : Dict AffinityEntry) (e : AffinityEntry)
    → lookup key (without_account id m) ≡ some e
    → str_eq e.account_id id ≡ false
unfolding without_account
lookup-without_account id key [] e h = cc
lookup-without_account id key ((k, x) ∷ rest) e h =
    ground (arith, lookup-without_account id key rest e)

-- The answer of a lookup is empty or the account of the entry.
lookup_binding-cases :
    (a : Affinity) (now : ℕ) (key : String)
    → ((lookup_binding a now key).1 ≡ "")
      ⊎ ((e : AffinityEntry) × (lookup key a.bindings ≡ some e)
          × ((lookup_binding a now key).1 ≡ e.account_id))
unfolding lookup_binding
lookup_binding-cases a now key = elim (Option-cases (lookup key a.bindings)) [
  | inl e ↦ inl (ground (arith, e))
  | inr (x, e) ↦ elim (Bool-cases (is_empty key || ltb x.expires_at now)) [
    | inl t ↦ inl (ground (arith, e, t))
    | inr t ↦ inr (x, e, ground (arith, e, t))
  ]
]

forget_account-bindings :
    (a : Affinity) (id : String)
    → is_empty id ≡ false
    → (forget_account a id).bindings ≡ without_account id a.bindings
unfolding forget_account
forget_account-bindings a id h = rw h refl

-- After an account is forgotten, no conversation is bound to it.
pub lookup_binding-forget_account :
    (a : Affinity) (now : ℕ) (id key : String)
    → is_empty id ≡ false
    → (lookup_binding (forget_account a id) now key).1 ≢ id
lookup_binding-forget_account a now id key h same =
    elim (lookup_binding-cases (forget_account a id) now key) [
      | inl e ↦ ground (arith, ap is_empty (sym e ∙ same))
      | inr (x, e, answer) ↦
          let left =
            lookup-without_account id key a.bindings x
              (sym (ap (lookup key) (forget_account-bindings a id h)) ∙ e) in
          ground (arith, eq_iff x.account_id id, sym answer ∙ same)
    ]
