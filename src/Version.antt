-- ===== src/Version.antt =====
-- internal/version/version.go: versions and their order. `Current` and `readVersionFile` read the
-- build and the file system and are not modelled. A parsed version, a `[3]int`, is a list of
-- three numbers.
use Prim.Native.Char.{code}
use deep_seek_web_to_api.Prelude.{
  ℕ, zero, suc, ◌+◌, ◌-◌, ◌*◌, ◌^◌, Bool, false, ◌&&◌, ◌||◌, not, Option, none, some, List, [], ◌∷◌,
  get_elem?, ltb, leb, ◌==◌, if◌then◌else◌,
}
use deep_seek_web_to_api.Prelude.Int.{ℤ, pos, negsuc}
use deep_seek_web_to_api.Prelude.Text.{String, Char, is_empty, str_eq, trim_space}

-- strings.TrimPrefix(v, "v")
unfoldable pub trim_v : String → String
trim_v String.[] = String.[]
trim_v (String.◌∷◌ c s) = if code c == b'v' then s else String.◌∷◌ c s

unfoldable pub normalize : String → String
normalize v = trim_v (trim_space v)

abbrev pub is_digit_char : Char → Bool
is_digit_char c = leb b'0' (code c) && leb (code c) b'9'

abbrev starts_with_digit : String → Bool
starts_with_digit String.[] = false
starts_with_digit (String.◌∷◌ c s) = is_digit_char c

unfoldable pub tag : String → String
tag v =
    let n = normalize v in
    if is_empty n || str_eq n "dev"
    then n
    else if not (starts_with_digit n)
    then n
    else String.◌∷◌ "v" n

-- The part before the first dot, and what follows it if there is one.
unfoldable pub cut_dot : String → String × Option String
cut_dot String.[] = (String.[], none)
cut_dot (String.◌∷◌ c s) =
    let (part, rest) = cut_dot s in
    if code c == b'.' then (String.[], some s) else (String.◌∷◌ c part, rest)

-- strings.SplitN(v, ".", n) for n > 0
unfoldable pub split_n : ℕ → String → List String
split_n zero v = []
split_n (suc zero) v = v ∷ []
split_n (suc (suc n)) v = elim (cut_dot v).1 [
  | none ↦ (cut_dot v).0 ∷ []
  | some rest ↦ (cut_dot v).0 ∷ split_n (suc n) rest
]

-- The value of the leading digits behind those that make up `n`.
unfoldable pub leading_value : ℕ → String → ℕ
leading_value n String.[] = n
leading_value n (String.◌∷◌ c s) =
    let longer = leading_value (n * 10 + (code c - b'0')) s in if is_digit_char c then longer else n

-- `strconv.Atoi` fails from 2 ^ 63 on, and then the value is 0.
unfoldable pub read_leading_int : String → ℕ
read_leading_int s = let n = leading_value 0 (trim_space s) in if ltb n (2 ^ 63) then n else 0

abbrev part_at : List String → ℕ → ℕ
part_at parts i = elim (get_elem? parts i) [ none ↦ 0 | some s ↦ read_leading_int s ]

unfoldable pub parse : String → List ℕ
parse v = let parts = split_n 4 v in part_at parts 0 ∷ part_at parts 1 ∷ part_at parts 2 ∷ []

-- The loop of `Compare`.
unfoldable pub compare_parts : List ℕ → List ℕ → ℤ
compare_parts (x ∷ xs) (y ∷ ys) =
    let later = compare_parts xs ys in
    if ltb x y then negsuc 0 else if ltb y x then pos 1 else later
compare_parts _ _ = pos 0

unfoldable pub compare : String → String → ℤ
compare a b = compare_parts (parse (normalize a)) (parse (normalize b))
