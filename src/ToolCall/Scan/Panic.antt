-- ===== src/ToolCall/Scan/Panic.antt =====
-- The search for a tag in a text whose lower case is shorter (internal/toolcall/toolcalls_scan.go).
use deep_seek_web_to_api.Prelude.{
  ℕ, zero, suc, ◌+◌, ◌≤◌, ◌<◌, ◌≡◌, refl, false, none, some, [], ◌∷◌, ◌++◌, length, drop, get_or,
  ltb, ◌==◌, arith, Bool-cases, inl, inr,
}
use deep_seek_web_to_api.Prelude.Text.{codes}
use deep_seek_web_to_api.Sieve.Bytes.{Bytes, has_prefix, contains_byte}
use deep_seek_web_to_api.ToolCall.Names.{tail, wide_pipe}
use deep_seek_web_to_api.ToolCall.Scan.{
  stays, cdata_opener_len_at, skip_ignored_section, scan_tag_at, find_from, find_tool_markup_tag,
}

has_prefix-absent :
    (b : ℕ) (p s : Bytes) (i : ℕ)
    → contains_byte b s ≡ false
    → has_prefix (b ∷ p) (drop i s) ≡ false
unfolding has_prefix contains_byte
has_prefix-absent b p [] zero h = refl
has_prefix-absent b p [] (suc i) h = refl
has_prefix-absent b p (c ∷ s) zero h = ground (arith, h)
has_prefix-absent b p (c ∷ s) (suc i) h = has_prefix-absent b p s i (ground (arith, h))

pub get_or-absent :
    (s : Bytes) (i : ℕ) → contains_byte b'<' s ≡ false → (get_or s i 0 == b'<') ≡ false
unfolding contains_byte
get_or-absent [] i h = refl
get_or-absent (c ∷ s) zero h = ground (arith, h)
get_or-absent (c ∷ s) (suc i) h = get_or-absent s i (ground (arith, h))

module _ (trim : Bytes → Bytes) (lower text : Bytes)
    (plain_lower : contains_byte b'<' lower ≡ false) (plain : contains_byte b'<' text ≡ false)
    (shorter : length lower + 2 ≤ length text) where
  no_opener : (i : ℕ) → cdata_opener_len_at lower i ≡ 0
  unfolding cdata_opener_len_at
  no_opener i = ground (
    arith,
    has_prefix-absent b'<' (codes "![cdata[") lower i plain_lower,
    has_prefix-absent b'<' (codes "![cdata|") lower i plain_lower,
    has_prefix-absent b'<' (codes "![cdata" ++ wide_pipe) lower i plain_lower,
  )

  skip_ignored_section-stays :
      (i : ℕ) → i ≤ length lower → skip_ignored_section lower i ≡ some stays
  unfolding skip_ignored_section tail
  skip_ignored_section-stays i inside =
      ground (arith, no_opener i, has_prefix-absent b'<' (codes "!--") lower i plain_lower)

  skip_ignored_section-panics : (i : ℕ) → length lower < i → skip_ignored_section lower i ≡ none
  unfolding skip_ignored_section tail
  skip_ignored_section-panics i outside = ground (arith, no_opener i)

  find_from-panics :
      (fuel i : ℕ)
      → i < length text
      → length text ≤ i + fuel
      → find_from trim fuel lower text i ≡ none
  unfolding find_from scan_tag_at
  find_from-panics zero i inside enough = absurd (omega (arith, inside, enough))
  find_from-panics (suc fuel) i inside enough = elim (Bool-cases (ltb (length lower) i)) [
    | inl b ↦ ground (arith, b, skip_ignored_section-panics i)
    | inr b ↦ ground (
      arith,
      b,
      skip_ignored_section-stays i,
      get_or-absent text i plain,
      find_from-panics fuel (i + 1),
    )
  ]

-- Text without the byte `<`, whose lower case is shorter by two bytes or more and has none either: the
-- search for a tag panics, from whatever position of the text it starts.
pub find_tool_markup_tag-panics :
    (trim : Bytes → Bytes) (lower text : Bytes) (from : ℕ)
    → contains_byte b'<' lower ≡ false
    → contains_byte b'<' text ≡ false
    → length lower + 2 ≤ length text
    → from < length text
    → find_tool_markup_tag trim lower text from ≡ none
unfolding find_tool_markup_tag
find_tool_markup_tag-panics trim lower text from plain_lower plain shorter inside =
    find_from-panics trim lower text plain_lower plain shorter (length text) from inside
      (omega (arith, inside))
