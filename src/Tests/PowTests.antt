-- ===== src/Tests/PowTests.antt =====
-- Examples for pow: the hash of the repository's test, and a search that ends at the second nonce.
use deep_seek_web_to_api.Prelude.{ℕ, ◌<◌, ◌≡◌, refl, true, false, some, List, ◌++◌, arith}
use deep_seek_web_to_api.Prelude.Int.{pos}
use deep_seek_web_to_api.Prelude.Text.{codes}
use deep_seek_web_to_api.Pow.Hash.{
  put_uint, absorb, absorb_block, copy_at, pad, xor_lanes, uint64, absorb_all, hash_state,
  deep_seek_hash_v1,
}
use deep_seek_web_to_api.Pow.Keccak.{keccak_f23}
use deep_seek_web_to_api.Pow.Digits.{num_text, write_digits, format_int, value_from, num_text-value}
use deep_seek_web_to_api.Pow.Solve.{
  build_prefix, hex_decode, nonce_state, is_hit, solve_pow, ok, hex_digit, solve_with, search_nonce,
}
use deep_seek_web_to_api.Pow.Solve.Search.{nonce_state-hash}
use deep_seek_web_to_api.Pow.Solve.Target.{solve_pow-ok, solve_pow_complete}

-- A test vector of pow/deepseek_pow_test.go.
hashes_test_vector :
    deep_seek_hash_v1 (codes "testsalt_1700000000_42")
    ≡ put_uint 32 0x094f1a921b438edfb9a353dca8ea03f8c68083868434937c88409ec858eaa2d4
unfolding deep_seek_hash_v1 put_uint deep_seek_web_to_api.Pow.Hash.digest hash_state
    deep_seek_web_to_api.Pow.Hash.finish deep_seek_web_to_api.Pow.Hash.absorb_block
    deep_seek_web_to_api.Pow.Keccak.keccak_f23 deep_seek_web_to_api.Pow.Hash.xor_lanes
    deep_seek_web_to_api.Pow.Hash.absorb deep_seek_web_to_api.Pow.Hash.uint64
    deep_seek_web_to_api.Pow.Hash.pad deep_seek_web_to_api.Pow.Hash.copy_at
hashes_test_vector = refl

abbrev challenge : List ℕ
challenge = codes "bf32487dbdc6ee69f6d4a9bb7c224b8733a66cfd33ef6b9c65e978f42d4dbed0"

abbrev salt : List ℕ
salt = codes "testsalt"

abbrev target : List ℕ
target = put_uint 32 0xd0be4d2df478e9659c6bef33fd6ca633874b227cbba9d4f669eec6bd7d4832bf

decodes : hex_decode challenge ≡ some target
unfolding hex_decode put_uint
decodes = refl

solves : solve_pow (λ n. false) challenge salt (pos 1_700_000_000) (pos 2) ≡ ok 1
unfolding solve_pow hex_decode hex_digit solve_with search_nonce is_hit nonce_state num_text
    write_digits build_prefix format_int absorb absorb_block copy_at pad xor_lanes uint64 keccak_f23
solves = refl

solve_pow-ok_example :
    (t : List ℕ) × (hex_decode challenge ≡ some t)
    × (deep_seek_hash_v1 (build_prefix salt (pos 1_700_000_000) ++ num_text 1) ≡ t)
    × (1 < 2)
solve_pow-ok_example = solve_pow-ok (λ n. false) challenge salt (pos 1_700_000_000) (pos 2) 1 solves

hits : is_hit target (hash_state (build_prefix salt (pos 1_700_000_000) ++ num_text 1)) ≡ true
unfolding hash_state is_hit deep_seek_web_to_api.Pow.Hash.finish
    deep_seek_web_to_api.Pow.Hash.absorb_block deep_seek_web_to_api.Pow.Keccak.keccak_f23
    deep_seek_web_to_api.Pow.Hash.xor_lanes deep_seek_web_to_api.Pow.Hash.absorb build_prefix
    deep_seek_web_to_api.Pow.Digits.format_int deep_seek_web_to_api.Pow.Digits.write_digits
    deep_seek_web_to_api.Pow.Hash.uint64 deep_seek_web_to_api.Pow.Hash.pad
    deep_seek_web_to_api.Pow.Hash.copy_at put_uint
hits = refl

solve_pow_complete_example :
    (n : ℕ) × (solve_pow (λ n. false) challenge salt (pos 1_700_000_000) (pos 2) ≡ ok n)
solve_pow_complete_example =
    solve_pow_complete (λ n. false) challenge salt (pos 1_700_000_000) (pos 2) target 1 (λ j. refl)
      refl decodes (omega arith) hits

nonce_state-hash_example :
    nonce_state (absorb_all salt).0 (absorb_all salt).1 (num_text 42)
    ≡ hash_state (salt ++ num_text 42)
nonce_state-hash_example = nonce_state-hash salt (num_text 42) (num_text-value 42 (omega arith)).1
