-- ===== src/Sieve/Loop/Plain.antt =====
-- Chunks without the byte `<` (internal/toolstream/tool_sieve_core.go).
use deep_seek_web_to_api.Prelude.{
  ℕ, suc, ◌+◌, ◌*◌, ◌≡◌, refl, ap, ◌∙◌, false, none, List, [], ◌∷◌, ◌++◌, length, All, arith,
}
use mathlib.Core.List.{append-nil}
use deep_seek_web_to_api.Sieve.Bytes.{Bytes, last_index, has_prefix, contains_byte}
use deep_seek_web_to_api.Sieve.Fence.{Fence, no_fence, note_text}
use deep_seek_web_to_api.Sieve.Markup.{
  Markup, find_segment_from, find_tool_segment_start, find_partial_tag_start, split_safe_content,
}
use deep_seek_web_to_api.Sieve.Loop.{
  State, Event, content, goes_on, contents, enough, round, rounds, text_round, safe_round,
  process_chunk, process_chunks, flush, flush_capture, sieve,
}

abbrev pub IsPlain : Bytes → Type 0
IsPlain s = contains_byte b'<' s ≡ false

last_index-plain : (s : Bytes) → IsPlain s → last_index (b'<' ∷ []) s ≡ none
unfolding last_index contains_byte has_prefix
last_index-plain [] h = refl
last_index-plain (c ∷ s) h = ground (arith, h, last_index-plain s)

-- The content events of the chunks.
abbrev pub texts : {Call : Type 0} → List Bytes → List (Event Call)
texts [] = []
texts (chunk ∷ chunks) = contents chunk ++ texts chunks

module _ {Call : Type 0} (m : Markup Call)
    (no_tag : (s : Bytes) (from : ℕ) → IsPlain s → m.find_tag s from ≡ none) where
  -- A state that holds nothing.
  abbrev quiet : Fence → State Call
  quiet f = record {
    pending = [];
    capture = [];
    capturing = false;
    fence = f;
    pending_tool_calls = [];
  }

  find_segment_from-plain :
      (n : ℕ) (f : Fence) (s : Bytes) → IsPlain s → find_segment_from m (suc n) f s 0 ≡ none
  unfolding find_segment_from
  find_segment_from-plain n f s h = rw (find_segment_from, no_tag s 0 h) refl

  find_tool_segment_start-plain :
      (f : Fence) (s : Bytes) → IsPlain s → find_tool_segment_start m f s ≡ none
  unfolding find_tool_segment_start
  find_tool_segment_start-plain f [] h = refl
  find_tool_segment_start-plain f (c ∷ s) h = find_segment_from-plain (length (c ∷ s)) f (c ∷ s) h

  split_safe_content-plain :
      (f : Fence) (s : Bytes) → IsPlain s → split_safe_content m f s ≡ (s, [])
  unfolding split_safe_content find_partial_tag_start
  split_safe_content-plain f s h = rw (split_safe_content, last_index-plain s h) refl

  -- All of the text is sent in one round.
  text_round-plain :
      (f : Fence) (c : ℕ) (s : Bytes)
      → IsPlain (c ∷ s)
      → text_round m (record (quiet f) { pending = c ∷ s })
        ≡ goes_on (quiet (note_text f (c ∷ s))) (content (c ∷ s) ∷ [])
  unfolding text_round safe_round
  text_round-plain f c s h =
      rw
        (
          text_round,
          find_tool_segment_start-plain f (c ∷ s) h,
          split_safe_content-plain f (c ∷ s) h,
        )
        refl

  rounds-plain :
      (fuel : ℕ) (f : Fence) (c : ℕ) (s : Bytes)
      → IsPlain (c ∷ s)
      → rounds m (suc (suc fuel)) (record (quiet f) { pending = c ∷ s })
        ≡ (quiet (note_text f (c ∷ s)), content (c ∷ s) ∷ [])
  unfolding rounds round
  rounds-plain fuel f c s h = rw (rounds, text_round-plain f c s h) refl

  rounds-quiet : (fuel : ℕ) (f : Fence) → rounds m (suc fuel) (quiet f) ≡ (quiet f, [])
  unfolding rounds round
  rounds-quiet fuel f = refl

  process_chunk-plain :
      (f : Fence) (chunk : Bytes)
      → IsPlain chunk
      → (g : Fence) × (process_chunk m (quiet f) chunk ≡ (quiet g, contents chunk))
  unfolding process_chunk
  process_chunk-plain f [] h =
      let two : enough (quiet f) ≡ suc 1 = omega arith in
      (f, ap (λ n. rounds m n (quiet f)) two ∙ rounds-quiet 1 f)
  process_chunk-plain f (c ∷ s) h =
      let t : State Call = record (quiet f) { pending = c ∷ s } in
      let two : enough t ≡ suc (suc (2 * (length (c ∷ s) + 0))) = omega arith in
      (
        note_text f (c ∷ s),
        ap (λ n. rounds m n t) two ∙ rounds-plain (2 * (length (c ∷ s) + 0)) f c s h,
      )

  process_chunks-plain :
      (f : Fence) (chunks : List Bytes)
      → All IsPlain chunks
      → (g : Fence) × (process_chunks m (quiet f) chunks ≡ (quiet g, texts chunks))
  unfolding process_chunks
  process_chunks-plain f [] h = (f, refl)
  process_chunks-plain f (chunk ∷ chunks) (h, hs) =
      let (g, first) = process_chunk-plain f chunk h in
      let (k, later) = process_chunks-plain g chunks hs in
      (k, rw (process_chunks, first, later) refl)

  flush-quiet : (f : Fence) → (flush m (quiet f)).1 ≡ []
  unfolding flush flush_capture contains_byte
  flush-quiet f = let (g, calm) = process_chunk-plain f [] refl in rw (flush, calm) refl

  -- A whole stream of such chunks.
  pub sieve-plain : (chunks : List Bytes) → All IsPlain chunks → sieve m chunks ≡ texts chunks
  sieve-plain chunks h =
      let (g, sent_all) = process_chunks-plain no_fence chunks h in
      rw (sent_all, flush-quiet g) (append-nil (texts chunks))
