-- ===== src/ToolCall/Names/Steps.antt =====
-- The steps over what may precede the name of a tag (internal/toolcall/toolcalls_scan.go).
use deep_seek_web_to_api.Prelude.{
  ℕ, zero, suc, ◌+◌, ◌≤◌, ◌<◌, ◌≡◌, Bool, true, none, some, List, [], ◌∷◌, length, drop, arith,
  Option-cases, inl, inr, length-drop, All,
}
use deep_seek_web_to_api.Prelude.Text.{codes}
use deep_seek_web_to_api.Sieve.Bytes.{Bytes, has_prefix}
use deep_seek_web_to_api.ToolCall.Names.{
  tail, wide_pipe, consume_pipe, consume_space_separator, consume_token_artifact, match_artifact,
  tool_markup_token_artifacts, consume_hyphen_separator, consume_last, consume_once,
  consume_name_prefix,
}

pub has_prefix-length : (p s : Bytes) → has_prefix p s ≡ true → length p ≤ length s
unfolding has_prefix
has_prefix-length [] s h = omega arith
has_prefix-length (c ∷ p) [] h = cc h
has_prefix-length (c ∷ p) (d ∷ s) h = ground (arith, has_prefix-length p s)

pub consume_pipe-within :
    (text : Bytes) (idx next : ℕ)
    → consume_pipe text idx ≡ some next
    → (idx < next) × (next ≤ length text)
unfolding consume_pipe
consume_pipe-within text idx next h =
    ground (arith, has_prefix-length wide_pipe (drop idx text), length-drop idx text)

match_artifact-positive :
    (artifacts : List Bytes) (text : Bytes) (n : ℕ)
    → All (λ a. 1 ≤ length a) artifacts
    → match_artifact artifacts text ≡ some n
    → 1 ≤ n
unfolding match_artifact
match_artifact-positive [] text n some_byte h = cc h
match_artifact-positive (a ∷ rest) text n some_byte h =
    ground (arith, some_byte, match_artifact-positive rest text n some_byte.1)

consume_token_artifact-lt :
    (text : Bytes) (idx next : ℕ)
    → consume_token_artifact text idx ≡ some next
    → (idx < next) × (idx < length text)
unfolding consume_token_artifact
consume_token_artifact-lt text idx next h =
    let some_byte : All (λ a. 1 ≤ length a) tool_markup_token_artifacts = (
      omega arith,
      (omega arith, (omega arith, (omega arith, (omega arith, (omega arith, tt))))),
    ) in
    elim (Option-cases (match_artifact tool_markup_token_artifacts (drop idx text))) [
      | inl e ↦ ground (arith, e)
      | inr (n, e) ↦
          let long =
            match_artifact-positive tool_markup_token_artifacts (drop idx text) n some_byte e in
          ground (arith, e, long)
    ]

consume_last-lt :
    (lower text : Bytes) (idx next : ℕ) (allow : Bool)
    → consume_last lower text idx allow ≡ some (some next)
    → (idx < next) × (idx < length text)
unfolding consume_last consume_hyphen_separator
consume_last-lt lower text idx next allow h =
    ground (arith, consume_token_artifact-lt text idx next)

-- One step over what may precede a name goes on, and starts within one of the two texts.
pub consume_once-lt :
    (lower text : Bytes) (idx next : ℕ) (allow : Bool)
    → consume_once lower text idx allow ≡ some (some next)
    → (idx < next) × (idx < length lower + length text)
unfolding consume_once consume_space_separator tail
consume_once-lt lower text idx next allow h = ground (
  arith,
  consume_pipe-within text idx next,
  consume_last-lt lower text idx next allow,
  has_prefix-length (codes "{:dsml}") (drop idx lower),
  has_prefix-length (codes "dsml") (drop idx lower),
  length-drop idx lower,
)

pub consume_name_prefix-le :
    (fuel : ℕ) (lower text : Bytes) (idx : ℕ) (dsml : Bool) (i : ℕ) (found : Bool)
    → consume_name_prefix fuel lower text idx dsml ≡ some (i, found)
    → idx ≤ i
unfolding consume_name_prefix
consume_name_prefix-le zero lower text idx dsml i found h = ground (arith, h)
consume_name_prefix-le (suc fuel) lower text idx dsml i found h =
    elim (Option-cases (consume_once lower text idx dsml)) [
      | inl e ↦ ground (arith, e)
      | inr (none, e) ↦ ground (arith, e)
      | inr (some next, e) ↦ ground (
        arith,
        e,
        consume_once-lt lower text idx next dsml e,
        consume_name_prefix-le fuel lower text next true i found,
      )
    ]
