-- ===== src/Config/Account.antt =====
-- internal/config/account.go, and the account record of internal/config/config.go.
use deep_seek_web_to_api.Prelude.{Bool, ◌&&◌, not, if◌then◌else◌}
use deep_seek_web_to_api.Prelude.Int.{ℤ}
use deep_seek_web_to_api.Prelude.Text.{String, is_empty, trim_space, contains_char}
use deep_seek_web_to_api.Config.Mobile.{normalize_mobile_for_storage}

pub record Account : Type 0 where
  pub name : String
  pub remark : String
  pub email : String
  pub mobile : String
  pub password : String
  pub token : String
  pub proxy_id : String
  pub proxy_auto_route : Bool
  pub disabled : Bool
  pub disabled_reason : String
  pub disabled_at_unix : ℤ
  pub cooldown_state : String
  pub cooldown_until_unix : ℤ

abbrev pub account_disabled_manual : String
account_disabled_manual = "manual"

abbrev pub account_disabled_invalid_credentials : String
account_disabled_invalid_credentials = "invalid_credentials"

abbrev pub account_disabled_upstream_banned : String
account_disabled_upstream_banned = "upstream_banned"

abbrev pub account_cooldown_rate_limited : String
account_cooldown_rate_limited = "rate_limited"

abbrev pub account_cooldown_temporarily_muted : String
account_cooldown_temporarily_muted = "temporarily_muted"

unfoldable pub looks_like_email_identifier : String → Bool
looks_like_email_identifier raw = contains_char b'@' (trim_space raw)

unfoldable pub normalize_account_identity : Account → Account
normalize_account_identity a =
    let email = trim_space a.email in
    let mobile = trim_space a.mobile in
    if is_empty email && looks_like_email_identifier mobile
    then record a { email = mobile; mobile = "" }
    else record a { email = email; mobile = normalize_mobile_for_storage mobile }

unfoldable pub identifier : Account → String
identifier account =
    let a = normalize_account_identity account in
    if not (is_empty (trim_space a.email))
    then trim_space a.email
    else if not (is_empty (trim_space a.mobile))
    then trim_space a.mobile
    else ""
