-- ===== src/Account/Affinity.antt =====
-- internal/account/affinity.go: the bindings of conversations to accounts. The fingerprints
-- (`SessionKey`, `ScopedSessionKey`, `CallerHash`) are not modelled: a key is a text. Nor is
-- `Lock`, the mutex for one key.
pub mod Bindings
use deep_seek_web_to_api.Prelude.{ℕ, ◌+◌, ◌||◌, none, some, [], ◌∷◌, length, ltb, if◌then◌else◌}
use deep_seek_web_to_api.Prelude.Text.{String, is_empty, str_eq}
use deep_seek_web_to_api.Prelude.Dict.{Dict, lookup, insert, delete}

pub record AffinityEntry : Type 0 where
  pub account_id : String
  pub expires_at : ℕ

pub record Affinity : Type 0 where
  pub bindings : Dict AffinityEntry
  pub ttl : ℕ

-- The bound account, or the empty text.
unfoldable pub lookup_binding : Affinity → ℕ → String → Affinity × String
lookup_binding a now key = if is_empty key then (a, "") else elim (lookup key a.bindings) [
  | none ↦ (a, "")
  | some e ↦ if ltb e.expires_at now then (record a { bindings = delete key a.bindings }, "") else (
    record a { bindings = insert key (record e { expires_at = now + a.ttl }) a.bindings },
    e.account_id,
  )
]

unfoldable pub bind : Affinity → ℕ → String → String → Affinity
bind a now key account_id = if is_empty key || is_empty account_id then a else record a {
  bindings = insert key (record { account_id = account_id; expires_at = now + a.ttl }) a.bindings;
}

unfoldable pub forget : Affinity → String → Affinity
forget a key = if is_empty key then a else record a { bindings = delete key a.bindings }

-- The entries that do not point at the account.
unfoldable pub without_account : String → Dict AffinityEntry → Dict AffinityEntry
without_account id [] = []
without_account id ((key, e) ∷ rest) =
    let kept = without_account id rest in if str_eq e.account_id id then kept else (key, e) ∷ kept

unfoldable pub forget_account : Affinity → String → Affinity
unfolding without_account
forget_account a id =
    if is_empty id then a else record a { bindings = without_account id a.bindings }

unfoldable pub stats : Affinity → ℕ × ℕ
stats a = (length a.bindings, a.ttl)
