-- ===== src/Tests/ConfigTests.antt =====
-- Examples for internal/config: mobile numbers and the lookup of accounts.
use deep_seek_web_to_api.Prelude.{
  Bool, true, false, Option, none, some, List, [], ◌∷◌, ◌≡◌, ◌≢◌, refl, All,
}
use deep_seek_web_to_api.Prelude.Int.{pos}
use deep_seek_web_to_api.Prelude.Text.{String, is_empty, trim_space}
use deep_seek_web_to_api.Config.Account.{
  Account, identifier, normalize_account_identity, looks_like_email_identifier,
}
use deep_seek_web_to_api.Config.Mobile.{normalize_mobile_for_storage, canonical_mobile_key}
use deep_seek_web_to_api.Config.Store.{
  Runtime, Store, rebuild_indexes, candidates, find_indexed, is_one_of, scan_accounts,
  find_account_index, find_account,
}
use deep_seek_web_to_api.Config.Mobile.Canonical.{normalize_mobile_for_storage_idem}
use deep_seek_web_to_api.Config.Store.Lookup.{find_account-found, find_account-absent}

abbrev pub test_account : String → String → Account
test_account email mobile = record {
  name = "";
  remark = "";
  email = email;
  mobile = mobile;
  password = "secret";
  token = "";
  proxy_id = "";
  proxy_auto_route = false;
  disabled = false;
  disabled_reason = "";
  disabled_at_unix = pos 0;
  cooldown_state = "";
  cooldown_until_unix = pos 0;
}

abbrev pub test_runtime : Runtime
test_runtime = record {
  account_max_inflight = pos 2;
  account_max_queue = pos 4;
  global_max_inflight = pos 3;
  env_account_max_inflight = none;
  env_account_max_queue = none;
  env_global_max_inflight = none;
}

-- Two accounts, the second with a mobile number.
abbrev pub test_store : Store
test_store = record {
  accounts = test_account "a@b" "" ∷ test_account "" "13800138000" ∷ [];
  acc_map = [];
  runtime = test_runtime;
}

normalizes_mobile : normalize_mobile_for_storage " +86 138-0013-8000 " ≡ "+8613800138000"
unfolding normalize_mobile_for_storage trim_space
normalizes_mobile = refl

normalize_mobile_for_storage_idem_example :
    normalize_mobile_for_storage (normalize_mobile_for_storage "+86 138-0013-8000")
    ≡ normalize_mobile_for_storage "+86 138-0013-8000"
normalize_mobile_for_storage_idem_example = normalize_mobile_for_storage_idem "+86 138-0013-8000"

finds_alias :
    find_account (rebuild_indexes test_store) "13800138000" ≡ some (test_account "" "13800138000")
unfolding find_account rebuild_indexes find_account_index find_indexed candidates
    canonical_mobile_key trim_space identifier normalize_account_identity
    looks_like_email_identifier deep_seek_web_to_api.Prelude.Text.contains_char
finds_alias = refl

find_account-found_example :
    is_one_of (identifier (test_account "" "13800138000")) (candidates (trim_space "13800138000"))
    ≡ true
find_account-found_example =
    find_account-found test_store "13800138000" (test_account "" "13800138000") finds_alias

finds_none : find_account (rebuild_indexes test_store) "c@d" ≡ none
unfolding find_account rebuild_indexes find_account_index find_indexed candidates
    canonical_mobile_key trim_space identifier normalize_account_identity
    looks_like_email_identifier deep_seek_web_to_api.Prelude.Text.contains_char scan_accounts
finds_none = refl

find_account-absent_example :
    All
      (λ acc.
        (identifier acc ≢ trim_space "c@d")
        × (identifier acc ≡ canonical_mobile_key (trim_space "c@d")
            → is_empty (identifier acc) ≡ true))
      test_store.accounts
find_account-absent_example = find_account-absent test_store "c@d" finds_none
