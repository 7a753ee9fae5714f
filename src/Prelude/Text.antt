-- ===== src/Prelude/Text.antt =====
-- Texts: Go strings that hold valid UTF-8, as native strings, with the parts of package `strings`
-- that the code calls.
use Prim.Native.Char.{code}
use deep_seek_web_to_api.Prelude.{
  ℕ, ◌-◌, Bool, true, false, ◌&&◌, ◌||◌, get_or, List, [], ◌∷◌, ◌≡◌, refl, arith, leb, ◌==◌,
  if◌then◌else◌,
}
pub use Prim.Native.Char.{Char}
pub use Prim.Native.String.{String}
pub use text.Mathlib.Text.{◌==◌ as str_eq}
pub use text.Mathlib.TextEquality.{eq_iff}
pub use text.Mathlib.TextPositions.{eq_refl}

-- The code points of a text.
abbrev pub codes : String → List ℕ
codes String.[] = []
codes (String.◌∷◌ c s) = code c ∷ codes s

abbrev pub is_empty : String → Bool
is_empty String.[] = true
is_empty (String.◌∷◌ c s) = false

-- s + t
abbrev pub concat : String → String → String
concat String.[] t = t
concat (String.◌∷◌ c s) t = String.◌∷◌ c (concat s t)

-- unicode.IsSpace
abbrev pub is_space : Char → Bool
is_space c =
    let n = code c in
    (leb 0x9 n && leb n 0xd)
    || (n == 0x20)
    || (n == 0x85)
    || (n == 0xa0)
    || (n == 0x1680)
    || (leb 0x2000 n && leb n 0x200a)
    || (n == 0x2028)
    || (n == 0x2029)
    || (n == 0x202f)
    || (n == 0x205f)
    || (n == 0x3000)

unfoldable pub trim_left : String → String
trim_left String.[] = String.[]
trim_left (String.◌∷◌ c s) = let rest = trim_left s in if is_space c then rest else String.◌∷◌ c s

unfoldable pub trim_right : String → String
trim_right String.[] = String.[]
trim_right (String.◌∷◌ c s) =
    let rest = trim_right s in if is_empty rest && is_space c then rest else String.◌∷◌ c rest

-- strings.TrimSpace
unfoldable pub trim_space : String → String
unfolding trim_left trim_right
trim_space s = trim_right (trim_left s)

abbrev chars : String → List Char
chars String.[] = []
chars (String.◌∷◌ c s) = c ∷ chars s

-- The lower-case letter, for a letter of ASCII; other letters are left as they are.
abbrev pub lower : Char → Char
lower c =
    if leb b'A' (code c) && leb (code c) b'Z'
    then get_or (chars "abcdefghijklmnopqrstuvwxyz") (code c - b'A') c
    else c

-- strings.ToLower, on ASCII
unfoldable pub to_lower : String → String
to_lower String.[] = String.[]
to_lower (String.◌∷◌ c s) = String.◌∷◌ (lower c) (to_lower s)

-- strings.ContainsRune
unfoldable pub contains_char : ℕ → String → Bool
contains_char n String.[] = false
contains_char n (String.◌∷◌ c s) = (code c == n) || contains_char n s

abbrev pub NoSpace : String → Type 0
NoSpace String.[] = Unit {0}
NoSpace (String.◌∷◌ c s) = (is_space c ≡ false) × NoSpace s

-- A text without white space is trimmed to itself.
trim_right-NoSpace : (s : String) → NoSpace s → trim_right s ≡ s
unfolding trim_right
trim_right-NoSpace String.[] h = refl
trim_right-NoSpace (String.◌∷◌ c s) h = ground (arith, trim_right-NoSpace s h.1)

trim_left-NoSpace : (s : String) → NoSpace s → trim_left s ≡ s
unfolding trim_left
trim_left-NoSpace String.[] h = refl
trim_left-NoSpace (String.◌∷◌ c s) h = ground arith

pub trim_space-NoSpace : (s : String) → NoSpace s → trim_space s ≡ s
unfolding trim_space
trim_space-NoSpace s h = rw (trim_left-NoSpace s h) (trim_right-NoSpace s h)

trims : trim_space "  a b\n " ≡ "a b"
unfolding trim_space
trims = refl
