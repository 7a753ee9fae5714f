-- ===== src/Config/Store.antt =====
-- internal/config/store.go, store_index.go and store_accessors.go: finding an account, its index,
-- and the runtime limits that the account pool asks for. The account test results and session
-- counts that `rebuildIndexes` also carries over are not modelled.
pub mod Lookup
use deep_seek_web_to_api.Prelude.{
  ℕ, ◌+◌, Bool, true, false, ◌&&◌, ◌||◌, not, Option, none, some, List, [], ◌∷◌, get_elem?, length,
  ltb, if◌then◌else◌,
}
use deep_seek_web_to_api.Prelude.Int.{ℤ, pos, negsuc, pos_part, ltb_ℤ}
use deep_seek_web_to_api.Prelude.Text.{String, is_empty, str_eq, trim_space}
use deep_seek_web_to_api.Prelude.Dict.{Dict, lookup, insert}
use deep_seek_web_to_api.Config.Account.{Account, identifier}
use deep_seek_web_to_api.Config.Mobile.{canonical_mobile_key}

-- The part of the runtime settings that the pool reads, with the values of the environment
-- variables `DEEPSEEK_WEB_TO_API_ACCOUNT_MAX_INFLIGHT`, `…_ACCOUNT_MAX_QUEUE` and
-- `…_GLOBAL_MAX_INFLIGHT`: `none` where one is unset, blank or no integer.
pub record Runtime : Type 0 where
  pub account_max_inflight : ℤ
  pub account_max_queue : ℤ
  pub global_max_inflight : ℤ
  pub env_account_max_inflight : Option ℤ
  pub env_account_max_queue : Option ℤ
  pub env_global_max_inflight : Option ℤ

pub record Store : Type 0 where
  pub accounts : List Account
  pub acc_map : Dict ℕ
  pub runtime : Runtime

-- The loop of `rebuildIndexes` over the accounts from position `i` on.
unfoldable pub index_from : ℕ → List Account → Dict ℕ → Dict ℕ
index_from i [] m = m
index_from i (acc ∷ rest) m =
    index_from (i + 1) rest (if is_empty (identifier acc) then m else insert (identifier acc) i m)

unfoldable pub rebuild_indexes : Store → Store
unfolding index_from
rebuild_indexes s = record s { acc_map = index_from 0 s.accounts [] }

unfoldable pub candidates : String → List String
candidates id =
    let mobile = canonical_mobile_key id in
    if not (is_empty mobile) && not (str_eq mobile id) then id ∷ mobile ∷ [] else id ∷ []

-- The first loop of `findAccountIndexLocked`: a key that the index has, within range.
unfoldable pub find_indexed : Store → List String → Option ℕ
find_indexed s [] = none
find_indexed s (key ∷ keys) =
    let rest = find_indexed s keys in
    elim (lookup key s.acc_map) [
      | none ↦ rest
      | some idx ↦ if ltb idx (length s.accounts) then some idx else rest
    ]

unfoldable pub is_one_of : String → List String → Bool
is_one_of id [] = false
is_one_of id (key ∷ keys) = str_eq id key || is_one_of id keys

-- The second loop: a scan of the accounts from position `i` on.
unfoldable pub scan_accounts : ℕ → List Account → List String → Option ℕ
unfolding is_one_of
scan_accounts i [] keys = none
scan_accounts i (acc ∷ rest) keys =
    let later = scan_accounts (i + 1) rest keys in
    if is_one_of (identifier acc) keys then some i else later

unfoldable pub find_account_index : Store → String → Option ℕ
find_account_index s id = elim (find_indexed s (candidates id)) [
  | some idx ↦ some idx
  | none ↦ scan_accounts 0 s.accounts (candidates id)
]

unfoldable pub find_account : Store → String → Option Account
find_account s id = elim (find_account_index s (trim_space id)) [
  | none ↦ none
  | some idx ↦ get_elem? s.accounts idx
]

abbrev is_positive : ℤ → Bool
is_positive n = ltb_ℤ (pos 0) n

abbrev is_negative : ℤ → Bool
is_negative n = ltb_ℤ n (pos 0)

-- An environment value that passes the test, else the fallback.
abbrev env_or : (ℤ → Bool) → Option ℤ → ℤ → ℤ
env_or test none fallback = fallback
env_or test (some n) fallback = if test n then n else fallback

unfoldable pub runtime_account_max_inflight : Store → ℤ
runtime_account_max_inflight s =
    if is_positive s.runtime.account_max_inflight
    then s.runtime.account_max_inflight
    else env_or is_positive s.runtime.env_account_max_inflight (pos 2)

unfoldable pub runtime_account_max_queue : Store → ℤ → ℤ
runtime_account_max_queue s default_size =
    if is_positive s.runtime.account_max_queue
    then s.runtime.account_max_queue
    else env_or (λ n. not (is_negative n)) s.runtime.env_account_max_queue
        (if is_negative default_size then pos 0 else default_size)

unfoldable pub runtime_global_max_inflight : Store → ℤ → ℤ
runtime_global_max_inflight s default_size =
    if is_positive s.runtime.global_max_inflight
    then s.runtime.global_max_inflight
    else env_or is_positive s.runtime.env_global_max_inflight
        (if is_negative default_size then pos 0 else default_size)
