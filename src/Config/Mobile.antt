-- ===== src/Config/Mobile.antt =====
-- internal/config/mobile.go: mobile numbers in the form in which they are stored and compared.
pub mod Canonical
use Prim.Native.Char.{code}
use deep_seek_web_to_api.Prelude.{
  ℕ, ◌+◌, Bool, true, false, not, ◌&&◌, ◌||◌, leb, ◌==◌, if◌then◌else◌,
}
use deep_seek_web_to_api.Prelude.Text.{String, Char, concat, is_empty, str_eq, trim_space}

abbrev pub is_digit : Char → Bool
is_digit c = leb b'0' (code c) && leb (code c) b'9'

-- The characters ' ', '\t', '\n', '\r', '-', '(', ')', '.' and '/'.
abbrev pub is_mobile_separator : Char → Bool
is_mobile_separator c =
    let n = code c in
    (n == 32)
    || (n == 9)
    || (n == 10)
    || (n == 13)
    || (n == b'-')
    || (n == b'(')
    || (n == b')')
    || (n == b'.')
    || (n == b'/')

-- The first loop of `extractMobileDigits`: whether a plus is the first rune that is no separator.
pub has_plus : String → Bool
has_plus String.[] = false
has_plus (String.◌∷◌ c s) =
    let rest = has_plus s in
    if is_digit c then false else if is_mobile_separator c then rest else code c == b'+'

-- The second loop.
pub collect_digits : String → String
collect_digits String.[] = String.[]
collect_digits (String.◌∷◌ c s) =
    let rest = collect_digits s in if is_digit c then String.◌∷◌ c rest else rest

pub extract_mobile_digits : String → String × Bool
unfolding has_plus collect_digits
extract_mobile_digits raw =
    let s = trim_space raw in if is_empty s then ("", false) else (collect_digits s, has_plus s)

abbrev byte_length : String → ℕ
byte_length String.[] = 0
byte_length (String.◌∷◌ c s) = 1 + byte_length s

-- `digits[1]` stands behind a test that there are eleven digits.
pub is_china_mainland_mobile_digits : String → Bool
is_china_mainland_mobile_digits (String.◌∷◌ c (String.◌∷◌ d s)) =
    (byte_length s == 9) && (code c == b'1') && (leb b'3' (code d) && leb (code d) b'9')
is_china_mainland_mobile_digits s = false

pub is_china_mobile_with_country_code : String → Bool
unfolding is_china_mainland_mobile_digits
is_china_mobile_with_country_code (String.◌∷◌ c (String.◌∷◌ d s)) =
    (byte_length s == 11)
    && (code c == b'8')
    && (code d == b'6')
    && is_china_mainland_mobile_digits s
is_china_mobile_with_country_code s = false

-- digits[2:]
abbrev pub drop_two : String → String
drop_two (String.◌∷◌ c (String.◌∷◌ d s)) = s
drop_two s = String.[]

pub normalize_digits : String → Bool → String
unfolding is_china_mobile_with_country_code
normalize_digits digits plus =
    if is_empty digits
    then ""
    else if plus
    then concat "+" digits
    else if is_china_mobile_with_country_code digits
    then concat "+86" (drop_two digits)
    else if is_china_mainland_mobile_digits digits
    then concat "+86" digits
    else concat "+" digits

unfoldable pub normalize_mobile_for_storage : String → String
unfolding extract_mobile_digits normalize_digits
normalize_mobile_for_storage raw =
    let (digits, plus) = extract_mobile_digits raw in normalize_digits digits plus

unfoldable pub canonical_mobile_key : String → String
unfolding normalize_mobile_for_storage
canonical_mobile_key raw = normalize_mobile_for_storage raw
