-- ===== src/Sieve/Bytes.antt =====
-- Go strings as lists of bytes, with the parts of package `strings` that internal/toolstream calls.
use deep_seek_web_to_api.Prelude.{
  ℕ, zero, suc, ◌-◌, Bool, true, false, ◌&&◌, ◌||◌, Option, none, some, List, [], ◌∷◌, length, leb,
  ◌==◌, if◌then◌else◌,
}

abbrev pub Bytes : Type 0
Bytes = List ℕ

abbrev pub is_nil {ℓ} : {A : Type ℓ} → List A → Bool
is_nil [] = true
is_nil (x ∷ xs) = false

-- strings.HasPrefix(s, prefix)
unfoldable pub has_prefix : Bytes → Bytes → Bool
has_prefix [] s = true
has_prefix (p ∷ ps) [] = false
has_prefix (p ∷ ps) (c ∷ s) = (p == c) && has_prefix ps s

-- s == t
unfoldable pub bytes_eq : Bytes → Bytes → Bool
bytes_eq [] [] = true
bytes_eq (c ∷ s) (d ∷ t) = (c == d) && bytes_eq s t
bytes_eq _ _ = false

-- strings.LastIndex(s, sub), of a text that is not empty
unfoldable pub last_index : Bytes → Bytes → Option ℕ
last_index sub [] = none
last_index sub (c ∷ s) = elim (last_index sub s) [
  | some i ↦ some (suc i)
  | none ↦ if has_prefix sub (c ∷ s) then some 0 else none
]

-- strings.Count(s, sub): the occurrences that do not overlap; `skip` bytes belong to the last one.
unfoldable pub count_from : ℕ → Bytes → Bytes → ℕ
count_from skip sub [] = 0
count_from (suc skip) sub (c ∷ s) = count_from skip sub s
count_from zero sub (c ∷ s) =
    let found = count_from (length sub - 1) sub s in
    let missed = count_from 0 sub s in if has_prefix sub (c ∷ s) then suc found else missed

unfoldable pub contains_byte : ℕ → Bytes → Bool
contains_byte b [] = false
contains_byte b (c ∷ s) = (c == b) || contains_byte b s

-- The cutset " \t\r\n".
abbrev is_blank : ℕ → Bool
is_blank c = (c == 0x20) || (c == 0x9) || (c == 0xd) || (c == 0xa)

unfoldable pub trim_left : Bytes → Bytes
trim_left [] = []
trim_left (c ∷ s) = let rest = trim_left s in if is_blank c then rest else c ∷ s

unfoldable pub trim_right : Bytes → Bytes
trim_right [] = []
trim_right (c ∷ s) = let rest = trim_right s in if is_nil rest && is_blank c then [] else c ∷ rest

-- unicode.IsSpace of a code point that takes one, two or three bytes of UTF-8.
abbrev is_space_1 : ℕ → Bool
is_space_1 a = (leb 0x9 a && leb a 0xd) || (a == 0x20)

abbrev is_space_2 : ℕ → ℕ → Bool
is_space_2 a b = (a == 0xc2) && ((b == 0x85) || (b == 0xa0))

abbrev is_space_3 : ℕ → ℕ → ℕ → Bool
is_space_3 a b c =
    ((a == 0xe1) && (b == 0x9a) && (c == 0x80))
    || ((a == 0xe2)
        && (b == 0x80)
        && ((leb 0x80 c && leb c 0x8a) || (c == 0xa8) || (c == 0xa9) || (c == 0xaf)))
    || ((a == 0xe2) && (b == 0x81) && (c == 0x9f))
    || ((a == 0xe3) && (b == 0x80) && (c == 0x80))

-- strings.TrimSpace(s) == ""; bytes that are no UTF-8 are not space.
unfoldable pub only_space : Bytes → Bool
only_space [] = true
only_space (a ∷ []) = is_space_1 a
only_space (a ∷ b ∷ []) =
    let one = only_space (b ∷ []) in if is_space_1 a then one else is_space_2 a b
only_space (a ∷ b ∷ c ∷ s) =
    let one = only_space (b ∷ c ∷ s) in
    let two = only_space (c ∷ s) in
    let three = only_space s in
    if is_space_1 a then one else if is_space_2 a b then two else is_space_3 a b c && three
