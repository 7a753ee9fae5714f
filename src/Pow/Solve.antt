-- ===== src/Pow/Solve.antt =====
-- pow/deepseek_pow.go: the search for a nonce, and the steps up to the header. `cancelled n` is
-- whether `ctx.Err()` reports an error when the loop asks at nonce n. `BuildPowHeader` (JSON and
-- base64 of the answer) is not modelled: the answer stands for the header.
pub mod Search
pub mod Target
use Prim.Native.Nat.{bit_and}
use deep_seek_web_to_api.Prelude.{
  ℕ, zero, suc, ◌+◌, ◌-◌, ◌*◌, Bool, not, ◌&&◌, Option, none, some, List, [], ◌∷◌, ◌++◌, length,
  take, drop, ltb, leb, ◌==◌, if◌then◌else◌,
}
use deep_seek_web_to_api.Prelude.Int.{ℤ, pos, negsuc, pos_part}
use deep_seek_web_to_api.Prelude.Text.{String, codes, str_eq}
use deep_seek_web_to_api.Pow.Keccak.{lane}
use deep_seek_web_to_api.Pow.Hash.{
  rate, zeros, uint64, absorb_block, absorb, absorb_all, copy_at, pad, hash_state,
}
use deep_seek_web_to_api.Pow.Digits.{num_text, format_int}

pub data PowError : Type 0 where
  bad_length bad_hex context_error no_solution unsupported_algorithm : PowError

pub data Result : Type 0 where
  ok : ℕ → Result
  err : PowError → Result

-- <salt>_<expire_at>_
unfoldable pub build_prefix : List ℕ → ℤ → List ℕ
build_prefix salt expire_at = salt ++ (b'_' ∷ (format_int expire_at ++ b'_' ∷ []))

-- hex.DecodeString
unfoldable pub hex_digit : ℕ → Option ℕ
hex_digit c =
    if leb b'0' c && leb c b'9'
    then some (c - b'0')
    else if leb b'a' c && leb c b'f'
    then some (c - b'a' + 10)
    else if leb b'A' c && leb c b'F'
    then some (c - b'A' + 10)
    else none

unfoldable pub hex_decode : List ℕ → Option (List ℕ)
unfolding hex_digit
hex_decode [] = some []
hex_decode (c ∷ []) = none
hex_decode (c ∷ (d ∷ cs)) =
    let rest = hex_decode cs in
    elim (hex_digit c) [
      | none ↦ none
      | some hi ↦ elim (hex_digit d) [
        | none ↦ none
        | some lo ↦ elim rest [ none ↦ none | some bytes ↦ some ((hi * 16 + lo) ∷ bytes) ]
      ]
    ]

-- The state for one nonce: from the state and the rest of the prefix that were absorbed once, one
-- block if the digits fit behind the rest, and else two.
unfoldable pub nonce_state : List ℕ → List ℕ → List ℕ → List ℕ
nonce_state base rest num =
    let tail_len = length rest in
    let tail = copy_at zeros 0 rest in
    let buf = copy_at zeros 0 (take tail_len tail) in
    let total_tail = tail_len + length num in
    let split = rate - tail_len in
    let rem = total_tail - rate in
    if ltb total_tail rate
    then absorb_block base (pad (copy_at buf tail_len num) total_tail)
    else absorb_block (absorb_block base (copy_at buf tail_len (take split num)))
        (pad (copy_at zeros 0 (take rem (drop split num))) rem)

-- The four words of the target: t0 to t3.
unfoldable pub is_hit : List ℕ → List ℕ → Bool
is_hit target s =
    (lane s 0 == uint64 (take 8 target))
    && (lane s 1 == uint64 (take 8 (drop 8 target)))
    && (lane s 2 == uint64 (take 8 (drop 16 target)))
    && (lane s 3 == uint64 (take 8 (drop 24 target)))

-- The loop over the nonces from `n` on.
unfoldable pub search_nonce : (ℕ → Bool) → (ℕ → Bool) → ℕ → ℕ → Result
search_nonce cancelled hit zero n = err no_solution
search_nonce cancelled hit (suc rounds) n =
    let later = search_nonce cancelled hit rounds (n + 1) in
    if (bit_and n 0x3ff == 0) && cancelled n
    then err context_error
    else if hit n
    then ok n
    else later

unfoldable pub solve_with : (ℕ → Bool) → List ℕ → List ℕ → ℤ → Result
solve_with cancelled target prefix difficulty =
    let (base, rest) = absorb_all prefix in
    search_nonce cancelled (λ n. is_hit target (nonce_state base rest (num_text n)))
      (pos_part difficulty) 0

unfoldable pub solve_pow : (ℕ → Bool) → List ℕ → List ℕ → ℤ → ℤ → Result
solve_pow cancelled challenge_hex salt expire_at difficulty =
    if not (length challenge_hex == 64) then err bad_length else elim (hex_decode challenge_hex) [
      | none ↦ err bad_hex
      | some target ↦ solve_with cancelled target (build_prefix salt expire_at) difficulty
    ]

pub record Challenge : Type 0 where
  pub algorithm : String
  pub challenge : List ℕ
  pub salt : List ℕ
  pub expire_at : ℤ
  pub difficulty : ℤ
  pub signature : String
  pub target_path : String

abbrev or_default : ℤ → ℤ
or_default (pos zero) = pos 144000
or_default d = d

unfoldable pub solve_and_build_header : (ℕ → Bool) → Challenge → Result
solve_and_build_header cancelled c =
    if str_eq c.algorithm "DeepSeekHashV1"
    then solve_pow cancelled c.challenge c.salt c.expire_at (or_default c.difficulty)
    else err unsupported_algorithm
