-- ===== src/Pow/Keccak.antt =====
-- pow/deepseek_hash.go: the permutation of DeepSeekHashV1, Keccak-f[1600] without its first round. A
-- `uint64` is a number below 2 ^ 64, and the state `[25]uint64` is a list of 25 lanes.
use Prim.Native.Nat.{bit_and, bit_or, bit_xor}
use deep_seek_web_to_api.Prelude.{ℕ, zero, suc, ◌+◌, ◌-◌, ◌*◌, ◌/◌, ◌%◌, ◌^◌, List, [], ◌∷◌, get_or}

-- var rc
abbrev pub rc : List ℕ
rc =
    0x0000000000000001 ∷ 0x0000000000008082 ∷ 0x800000000000808A ∷ 0x8000000080008000
    ∷ 0x000000000000808B ∷ 0x0000000080000001 ∷ 0x8000000080008081 ∷ 0x8000000000008009
    ∷ 0x000000000000008A ∷ 0x0000000000000088 ∷ 0x0000000080008009 ∷ 0x000000008000000A
    ∷ 0x000000008000808B ∷ 0x800000000000008B ∷ 0x8000000000008089 ∷ 0x8000000000008003
    ∷ 0x8000000000008002 ∷ 0x8000000000000080 ∷ 0x000000000000800A ∷ 0x800000008000000A
    ∷ 0x8000000080008081 ∷ 0x8000000000008080 ∷ 0x0000000080000001 ∷ 0x8000000080008008 ∷ []

abbrev pub word : ℕ
word = 2 ^ 64

unfoldable pub rotl64 : ℕ → ℕ → ℕ
rotl64 v k = bit_or (v * 2 ^ k % word) (v / 2 ^ (64 - k))

-- ^v
abbrev complement : ℕ → ℕ
complement v = bit_xor v 0xffff_ffff_ffff_ffff

abbrev pub lane : List ℕ → ℕ → ℕ
lane s i = get_or s i 0

abbrev column : List ℕ → ℕ → ℕ
column s i =
    bit_xor
      (bit_xor (bit_xor (bit_xor (lane s i) (lane s (i + 5))) (lane s (i + 10))) (lane s (i + 15)))
      (lane s (i + 20))

-- The lines up to `a24 ^= d4`.
unfoldable pub theta : List ℕ → List ℕ
theta s =
    let c0 = column s 0 in
    let c1 = column s 1 in
    let c2 = column s 2 in
    let c3 = column s 3 in
    let c4 = column s 4 in
    let d0 = bit_xor c4 (rotl64 c1 1) in
    let d1 = bit_xor c0 (rotl64 c2 1) in
    let d2 = bit_xor c1 (rotl64 c3 1) in
    let d3 = bit_xor c2 (rotl64 c4 1) in
    let d4 = bit_xor c3 (rotl64 c0 1) in
    (bit_xor (lane s 0) d0)
    ∷ (bit_xor (lane s 1) d1)
    ∷ (bit_xor (lane s 2) d2)
    ∷ (bit_xor (lane s 3) d3)
    ∷ (bit_xor (lane s 4) d4)
    ∷ (bit_xor (lane s 5) d0)
    ∷ (bit_xor (lane s 6) d1)
    ∷ (bit_xor (lane s 7) d2)
    ∷ (bit_xor (lane s 8) d3)
    ∷ (bit_xor (lane s 9) d4)
    ∷ (bit_xor (lane s 10) d0)
    ∷ (bit_xor (lane s 11) d1)
    ∷ (bit_xor (lane s 12) d2)
    ∷ (bit_xor (lane s 13) d3)
    ∷ (bit_xor (lane s 14) d4)
    ∷ (bit_xor (lane s 15) d0)
    ∷ (bit_xor (lane s 16) d1)
    ∷ (bit_xor (lane s 17) d2)
    ∷ (bit_xor (lane s 18) d3)
    ∷ (bit_xor (lane s 19) d4)
    ∷ (bit_xor (lane s 20) d0)
    ∷ (bit_xor (lane s 21) d1)
    ∷ (bit_xor (lane s 22) d2)
    ∷ (bit_xor (lane s 23) d3)
    ∷ (bit_xor (lane s 24) d4)
    ∷ []

-- The lanes b0 to b24.
unfoldable pub rho_pi : List ℕ → List ℕ
rho_pi s =
    (lane s 0)
    ∷ (rotl64 (lane s 6) 44)
    ∷ (rotl64 (lane s 12) 43)
    ∷ (rotl64 (lane s 18) 21)
    ∷ (rotl64 (lane s 24) 14)
    ∷ (rotl64 (lane s 3) 28)
    ∷ (rotl64 (lane s 9) 20)
    ∷ (rotl64 (lane s 10) 3)
    ∷ (rotl64 (lane s 16) 45)
    ∷ (rotl64 (lane s 22) 61)
    ∷ (rotl64 (lane s 1) 1)
    ∷ (rotl64 (lane s 7) 6)
    ∷ (rotl64 (lane s 13) 25)
    ∷ (rotl64 (lane s 19) 8)
    ∷ (rotl64 (lane s 20) 18)
    ∷ (rotl64 (lane s 4) 27)
    ∷ (rotl64 (lane s 5) 36)
    ∷ (rotl64 (lane s 11) 10)
    ∷ (rotl64 (lane s 17) 15)
    ∷ (rotl64 (lane s 23) 56)
    ∷ (rotl64 (lane s 2) 62)
    ∷ (rotl64 (lane s 8) 55)
    ∷ (rotl64 (lane s 14) 39)
    ∷ (rotl64 (lane s 15) 41)
    ∷ (rotl64 (lane s 21) 2)
    ∷ []

-- b_i ^ (^b_j & b_k)
abbrev chi_lane : List ℕ → ℕ → ℕ → ℕ → ℕ
chi_lane b i j k = bit_xor (lane b i) (bit_and (complement (lane b j)) (lane b k))

unfoldable pub chi : List ℕ → List ℕ
chi b =
    (chi_lane b 0 1 2)
    ∷ (chi_lane b 1 2 3)
    ∷ (chi_lane b 2 3 4)
    ∷ (chi_lane b 3 4 0)
    ∷ (chi_lane b 4 0 1)
    ∷ (chi_lane b 5 6 7)
    ∷ (chi_lane b 6 7 8)
    ∷ (chi_lane b 7 8 9)
    ∷ (chi_lane b 8 9 5)
    ∷ (chi_lane b 9 5 6)
    ∷ (chi_lane b 10 11 12)
    ∷ (chi_lane b 11 12 13)
    ∷ (chi_lane b 12 13 14)
    ∷ (chi_lane b 13 14 10)
    ∷ (chi_lane b 14 10 11)
    ∷ (chi_lane b 15 16 17)
    ∷ (chi_lane b 16 17 18)
    ∷ (chi_lane b 17 18 19)
    ∷ (chi_lane b 18 19 15)
    ∷ (chi_lane b 19 15 16)
    ∷ (chi_lane b 20 21 22)
    ∷ (chi_lane b 21 22 23)
    ∷ (chi_lane b 22 23 24)
    ∷ (chi_lane b 23 24 20)
    ∷ (chi_lane b 24 20 21)
    ∷ []

-- a0 ^= rc[r]
unfoldable pub iota : ℕ → List ℕ → List ℕ
iota r [] = []
iota r (a0 ∷ s) = bit_xor a0 (get_or rc r 0) ∷ s

unfoldable pub keccak_round : ℕ → List ℕ → List ℕ
unfolding rotl64 theta rho_pi chi iota
keccak_round r s = iota r (chi (rho_pi (theta s)))

-- The rounds from `r` on.
unfoldable pub keccak_rounds : ℕ → ℕ → List ℕ → List ℕ
unfolding keccak_round
keccak_rounds zero r s = s
keccak_rounds (suc n) r s = keccak_rounds n (r + 1) (keccak_round r s)

-- for r := 1; r < 24; r++
unfoldable pub keccak_f23 : List ℕ → List ℕ
unfolding keccak_rounds
keccak_f23 s = keccak_rounds 23 1 s
