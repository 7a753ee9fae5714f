-- ===== src/Sieve/Loop/Conserve.antt =====
-- The text and the calls of events, the text that a state holds, and the split of text that may be
-- sent (internal/toolstream).
use deep_seek_web_to_api.Prelude.{
  ◌≡◌, refl, sym, ap, ◌∙◌, List, [], ltb, ◌∷◌, ◌++◌, take, Bool-cases, Option-cases, inl, inr,
  take-append-drop,
}
use mathlib.Core.List.{append-nil, append_assoc}
use deep_seek_web_to_api.Sieve.Bytes.{Bytes}
use deep_seek_web_to_api.Sieve.Fence.{Fence, inside_code_fence}
use deep_seek_web_to_api.Sieve.Markup.{Markup, find_partial_tag_start, split_safe_content}
use deep_seek_web_to_api.Sieve.Loop.{State, Event, content, tool_calls, contents, sent, called}

pub sent-contents : (Call : Type 0) (s : Bytes) → sent {Call = Call} (contents s) ≡ s
sent-contents Call [] = refl
sent-contents Call (c ∷ s) = append-nil (c ∷ s)

pub called-contents : (Call : Type 0) (s : Bytes) → called {Call = Call} (contents s) ≡ []
called-contents Call [] = refl
called-contents Call (c ∷ s) = refl

module _ {Call : Type 0} where
  -- The text that waits.
  abbrev pub held : State Call → Bytes
  held s = s.capture ++ s.pending

  pub sent-append : (xs ys : List (Event Call)) → sent (xs ++ ys) ≡ sent xs ++ sent ys
  sent-append [] ys = refl
  sent-append (content s ∷ xs) ys =
      ap (λ r. s ++ r) (sent-append xs ys) ∙ sym (append_assoc s (sent xs) (sent ys))
  sent-append (tool_calls cs ∷ xs) ys = sent-append xs ys

  pub called-append : (xs ys : List (Event Call)) → called (xs ++ ys) ≡ called xs ++ called ys
  called-append [] ys = refl
  called-append (content s ∷ xs) ys = called-append xs ys
  called-append (tool_calls cs ∷ xs) ys = ap (λ r. cs ∷ r) (called-append xs ys)

module _ {Call : Type 0} (m : Markup Call) where
  pub split_safe_content-whole :
      (f : Fence) (s : Bytes) → (split_safe_content m f s).0 ++ (split_safe_content m f s).1 ≡ s
  unfolding split_safe_content
  split_safe_content-whole f s = elim (Option-cases (find_partial_tag_start m s)) [
    | inl e ↦ rw (split_safe_content, e) (append-nil s)
    | inr (i, e) ↦ elim (Bool-cases (inside_code_fence f (take i s))) [
      | inl g ↦ rw (split_safe_content, e, g) (append-nil s)
      | inr g ↦ elim (Bool-cases (ltb 0 i)) [
        | inl h ↦ rw (split_safe_content, e, g, h) (take-append-drop i s)
        | inr h ↦ rw (split_safe_content, e, g, h) refl
      ]
    ]
  ]
