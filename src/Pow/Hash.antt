-- ===== src/Pow/Hash.antt =====
-- pow/deepseek_hash.go: `DeepSeekHashV1`. Bytes are numbers below 256; an array is a list of its
-- length.
pub mod Blocks
pub mod Buffers
use Prim.Native.Nat.{bit_or, bit_xor}
use deep_seek_web_to_api.Prelude.{
  ℕ, zero, suc, ◌+◌, ◌*◌, ◌/◌, ◌%◌, List, [], ◌∷◌, ◌++◌, length, get_or, set, take, drop, replicate,
  leb, if◌then◌else◌, ◌≡◌, refl, map,
}
use deep_seek_web_to_api.Prelude.Text.{codes}
use deep_seek_web_to_api.Pow.Keccak.{lane, keccak_f23}

abbrev pub rate : ℕ
rate = 136

-- binary.LittleEndian.Uint64 of the bytes, and PutUint64 of `n` bytes.
unfoldable pub uint64 : List ℕ → ℕ
uint64 [] = 0
uint64 (b ∷ bs) = b + 256 * uint64 bs

unfoldable pub put_uint : ℕ → ℕ → List ℕ
put_uint zero v = []
put_uint (suc n) v = v % 256 ∷ put_uint n (v / 256)

-- s[i] ^= binary.LittleEndian.Uint64(block[i*8:]) for the first `n` lanes.
unfoldable pub xor_lanes : ℕ → List ℕ → List ℕ → List ℕ
xor_lanes zero s block = s
xor_lanes (suc n) [] block = []
xor_lanes (suc n) (a ∷ s) block = bit_xor a (uint64 (take 8 block)) ∷ xor_lanes n s (drop 8 block)

-- One block of `rate` bytes: rate / 8 lanes, then the permutation.
unfoldable pub absorb_block : List ℕ → List ℕ → List ℕ
absorb_block s block = keccak_f23 (xor_lanes 17 s block)

-- for off+rate <= len(data), over what is left of the data: the state and the rest.
unfoldable pub absorb : ℕ → List ℕ → List ℕ → List ℕ × List ℕ
absorb zero s rest = (s, rest)
absorb (suc fuel) s rest =
    let next = absorb fuel (absorb_block s (take rate rest)) (drop rate rest) in
    if leb rate (length rest) then next else (s, rest)

-- copy(dst[off:], src)
unfoldable pub copy_at : List ℕ → ℕ → List ℕ → List ℕ
copy_at [] off src = []
copy_at (d ∷ ds) (suc off) src = d ∷ copy_at ds off src
copy_at (d ∷ ds) zero [] = d ∷ ds
copy_at (d ∷ ds) zero (x ∷ xs) = x ∷ copy_at ds zero xs

abbrev pub zeros : List ℕ
zeros = replicate rate 0

-- buf[n] = 0x06; buf[rate-1] |= 0x80
unfoldable pub pad : List ℕ → ℕ → List ℕ
pad buf n = let marked = set buf n 0x06 in set marked 135 (bit_or (get_or marked 135 0) 0x80)

-- The state before any data.
abbrev pub initial : List ℕ
initial = replicate 25 0

abbrev pub absorb_all : List ℕ → List ℕ × List ℕ
absorb_all bytes = absorb (length bytes) initial bytes

-- The last, padded block.
unfoldable pub finish : List ℕ × List ℕ → List ℕ
finish (s, rest) = absorb_block s (pad (copy_at zeros 0 rest) (length rest))

unfoldable pub hash_state : List ℕ → List ℕ
hash_state bytes = finish (absorb_all bytes)

-- The first four lanes, in bytes.
unfoldable pub digest : List ℕ → List ℕ
digest s =
    put_uint 8 (lane s 0)
    ++ (put_uint 8 (lane s 1) ++ (put_uint 8 (lane s 2) ++ put_uint 8 (lane s 3)))

unfoldable pub deep_seek_hash_v1 : List ℕ → List ℕ
deep_seek_hash_v1 bytes = digest (hash_state bytes)
