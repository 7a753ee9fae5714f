-- ===== src/Config/Store/Lookup.antt =====
-- What `FindAccount` finds through the index (internal/config/store_index.go).
use deep_seek_web_to_api.Prelude.{
  ℕ, suc, ◌+◌, ◌≡◌, ◌≢◌, sym, ap, Bool, true, false, Option, none, some, List, [], ◌∷◌, get_elem?,
  All, arith, inl, inr, Option-cases, if◌then◌else◌,
}
use deep_seek_web_to_api.Prelude.Text.{String, is_empty, eq_iff, trim_space}
use deep_seek_web_to_api.Prelude.Dict.{Dict, lookup, insert, lookup-insert}
use deep_seek_web_to_api.Config.Mobile.{canonical_mobile_key}
use deep_seek_web_to_api.Config.Account.{Account, identifier}
use deep_seek_web_to_api.Config.Store.{
  Store, index_from, rebuild_indexes, candidates, find_indexed, is_one_of, scan_accounts,
  find_account_index, find_account,
}

-- The identifier of the account at a position.
abbrev id_at : List Account → ℕ → Option String
id_at accs i = elim (get_elem? accs i) [ none ↦ none | some acc ↦ some (identifier acc) ]

-- Each entry of the index points at an account with that identifier.
abbrev IsIndex : List Account → Dict ℕ → Type 0
IsIndex accs m = (k : String) (i : ℕ) → lookup k m ≡ some i → id_at accs i ≡ some k

index_from-IsIndex :
    (accs rest : List Account) (i : ℕ) (m : Dict ℕ)
    → ((k : ℕ) → get_elem? rest k ≡ get_elem? accs (i + k))
    → IsIndex accs m
    → IsIndex accs (index_from i rest m)
unfolding index_from
index_from-IsIndex accs [] i m h ok = ok
index_from-IsIndex accs (acc ∷ rest) i m h ok =
    index_from-IsIndex accs rest (i + 1) _ shift (step (is_empty (identifier acc)))
  where
    shift : (k : ℕ) → get_elem? rest k ≡ get_elem? accs (i + 1 + k)
    shift k = let e : i + 1 + k ≡ i + suc k = omega arith in rw e (h (suc k))

    here : get_elem? accs i ≡ some acc
    here = let e : i ≡ i + 0 = omega arith in rw e (sym (h 0))

    step : (b : Bool) → IsIndex accs (if b then m else insert (identifier acc) i m)
    step true k j e = ok k j e
    step false k j e =
        ground
          (arith, here, ok k j, lookup-insert (identifier acc) k i m, eq_iff (identifier acc) k)

-- The index that `rebuildIndexes` builds.
rebuild_indexes-IsIndex :
    (s : Store) → IsIndex (rebuild_indexes s).accounts (rebuild_indexes s).acc_map
unfolding rebuild_indexes
rebuild_indexes-IsIndex s =
    index_from-IsIndex s.accounts s.accounts 0 [] (λ k. ap (get_elem? s.accounts) (omega arith))
      (λ k i e. cc)

-- The account at a position has an identifier among the keys.
abbrev hit : List Account → List String → ℕ → Bool
hit accs keys i = elim (get_elem? accs i) [
  | none ↦ false
  | some acc ↦ is_one_of (identifier acc) keys
]

find_indexed-hit :
    (s : Store) (keys : List String) (i : ℕ)
    → IsIndex s.accounts s.acc_map
    → find_indexed s keys ≡ some i
    → hit s.accounts keys i ≡ true
unfolding find_indexed is_one_of
find_indexed-hit s [] i ok e = cc
find_indexed-hit s (key ∷ keys) i ok e =
    ground (arith, ok key i, find_indexed-hit s keys i ok, eq_iff key key)

scan_accounts-hit :
    (accs rest : List Account) (keys : List String) (i j : ℕ)
    → ((k : ℕ) → get_elem? rest k ≡ get_elem? accs (i + k))
    → scan_accounts i rest keys ≡ some j
    → hit accs keys j ≡ true
unfolding scan_accounts
scan_accounts-hit accs [] keys i j h e = cc
scan_accounts-hit accs (acc ∷ rest) keys i j h e =
    ground (arith, here, scan_accounts-hit accs rest keys (i + 1) j shift)
  where
    shift : (k : ℕ) → get_elem? rest k ≡ get_elem? accs (i + 1 + k)
    shift k = let e : i + 1 + k ≡ i + suc k = omega arith in rw e (h (suc k))

    here : get_elem? accs i ≡ some acc
    here = let e : i ≡ i + 0 = omega arith in rw e (sym (h 0))

scan_accounts-none :
    (rest : List Account) (keys : List String) (i : ℕ)
    → scan_accounts i rest keys ≡ none
    → All (λ acc. is_one_of (identifier acc) keys ≡ false) rest
unfolding scan_accounts
scan_accounts-none [] keys i e = tt
scan_accounts-none (acc ∷ rest) keys i e = ground (arith, scan_accounts-none rest keys (i + 1))

find_account_index-hit :
    (s : Store) (id : String) (i : ℕ)
    → IsIndex s.accounts s.acc_map
    → find_account_index s id ≡ some i
    → hit s.accounts (candidates id) i ≡ true
unfolding find_account_index is_one_of
find_account_index-hit s id i ok e = ground (
  arith,
  find_indexed-hit s (candidates id) i ok,
  scan_accounts-hit s.accounts s.accounts (candidates id) 0 i
      (λ k. ap (get_elem? s.accounts) (omega arith)),
)

find_account_index-none :
    (s : Store) (id : String)
    → find_account_index s id ≡ none
    → All (λ acc. is_one_of (identifier acc) (candidates id) ≡ false) s.accounts
unfolding find_account_index
find_account_index-none s id e = scan_accounts-none s.accounts (candidates id) 0 (ground arith)

find_account-some :
    (s : Store) (id : String) (acc : Account)
    → IsIndex s.accounts s.acc_map
    → find_account s id ≡ some acc
    → is_one_of (identifier acc) (candidates (trim_space id)) ≡ true
unfolding find_account
find_account-some s id acc ok e = elim (Option-cases (find_account_index s (trim_space id))) [
  | inl p ↦ ground arith
  | inr (i, p) ↦ ground (arith, find_account_index-hit s (trim_space id) i ok p)
]

find_account-none :
    (s : Store) (id : String)
    → IsIndex s.accounts s.acc_map
    → find_account s id ≡ none
    → All (λ acc. is_one_of (identifier acc) (candidates (trim_space id)) ≡ false) s.accounts
unfolding find_account
find_account-none s id ok e = elim (Option-cases (find_account_index s (trim_space id))) [
  | inl p ↦ find_account_index-none s (trim_space id) p
  | inr (i, p) ↦ absurd (ground (arith, find_account_index-hit s (trim_space id) i ok p))
]

-- After the index is rebuilt, an account that `FindAccount` returns has the trimmed identifier, or
-- the canonical mobile number of it, for its own.
pub find_account-found :
    (before : Store) (id : String) (acc : Account)
    → find_account (rebuild_indexes before) id ≡ some acc
    → is_one_of (identifier acc) (candidates (trim_space id)) ≡ true
find_account-found before id acc e =
    find_account-some (rebuild_indexes before) id acc (rebuild_indexes-IsIndex before) e

not_candidate :
    (id : String) (acc : Account)
    → is_one_of (identifier acc) (candidates id) ≡ false
    → (identifier acc ≢ id)
      × (identifier acc ≡ canonical_mobile_key id → is_empty (identifier acc) ≡ true)
unfolding candidates is_one_of
not_candidate id acc e = (
  λ same. ground (arith, eq_iff (identifier acc) id),
  λ same. ground (
    arith,
    same,
    eq_iff (identifier acc) id,
    eq_iff (identifier acc) (canonical_mobile_key id),
    eq_iff (canonical_mobile_key id) id,
  ),
)

All-none :
    (id : String) (accs : List Account)
    → All (λ acc. is_one_of (identifier acc) (candidates id) ≡ false) accs
    → All
        (λ acc.
          (identifier acc ≢ id)
          × (identifier acc ≡ canonical_mobile_key id → is_empty (identifier acc) ≡ true))
        accs
All-none id [] h = tt
All-none id (acc ∷ accs) (h, hs) = (not_candidate id acc h, All-none id accs hs)

-- After the index is rebuilt, where `FindAccount` returns none, no account of the store has the
-- trimmed identifier, nor the canonical mobile number of it, where that is not empty.
pub find_account-absent :
    (before : Store) (id : String)
    → find_account (rebuild_indexes before) id ≡ none
    → All
        (λ acc.
          (identifier acc ≢ trim_space id)
          × (identifier acc ≡ canonical_mobile_key (trim_space id)
              → is_empty (identifier acc) ≡ true))
        before.accounts
unfolding rebuild_indexes
find_account-absent before id e =
    All-none (trim_space id) before.accounts
      (find_account-none (rebuild_indexes before) id (rebuild_indexes-IsIndex before) e)
