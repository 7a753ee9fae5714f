-- ===== src/Sieve/Markup/Closing.antt =====
-- Where the search for a closing tag ends (internal/toolcall, `FindMatchingToolMarkupClose`).
use deep_seek_web_to_api.Prelude.{
  ℕ, zero, suc, ◌+◌, ◌≤◌, ◌<◌, ◌≡◌, refl, sym, ◌∙◌, Bool, false, some, length, ltb, arith,
  Bool-cases, Option-cases, inl, inr, not, ◌||◌,
}
use deep_seek_web_to_api.Prelude.Text.{String, str_eq}
use deep_seek_web_to_api.Sieve.Bytes.{Bytes, is_nil}
use deep_seek_web_to_api.Sieve.Markup.{
  Tag, Markup, find_by_name, first_by_name, close_depth, find_close, find_matching_close,
}

module _ {Call : Type 0} (m : Markup Call) where
  find_close-within :
      (fuel : ℕ) (text : Bytes) (opening : Tag) (pos depth : ℕ) (close : Tag)
      → find_close m fuel text opening pos depth ≡ some close
      → (pos ≤ close.end) × (close.end < length text)
  unfolding find_close
  find_close-within zero text opening pos depth close h = cc
  find_close-within (suc fuel) text opening pos depth close h =
      elim (Bool-cases (not (ltb pos (length text)))) [
        | inl e ↦ ground (arith, e)
        | inr e ↦ elim (Option-cases (m.find_tag text pos)) [
          | inl f ↦ ground (arith, e, f)
          | inr (tag, f) ↦
              let (low, within, high) = m.found_within text pos tag f in
              step tag low within high e f
                (λ d. find_close-within fuel text opening (tag.end + 1) d close)
                (close_depth m opening tag depth) refl
        ]
      ]
    where
      step :
          (tag : Tag)
          → pos ≤ tag.start
          → tag.start ≤ tag.end
          → tag.end < length text
          → not (ltb pos (length text)) ≡ false
          → m.find_tag text pos ≡ some tag
          → ((d : ℕ)
              → find_close m fuel text opening (tag.end + 1) d ≡ some close
              → (tag.end + 1 ≤ close.end) × (close.end < length text))
          → (d : ℕ) → close_depth m opening tag depth ≡ d
          → (pos ≤ close.end) × (close.end < length text)
      step tag low within high e f later zero g =
          let opened : find_close m (suc fuel) text opening pos depth ≡ some tag =
            rw (e, f, g) refl in
          let same : tag ≡ close = cc (sym opened ∙ h) in rw (← same) (omega arith, high)
      step tag low within high e f later (suc d) g =
          let opened : find_close m (suc fuel) text opening pos depth
              ≡ find_close m fuel text opening (tag.end + 1) (suc d) =
            rw (e, f, g) refl in
          let (l, k) = later (suc d) (sym opened ∙ h) in (omega arith, k)

  pub find_matching_close-within :
      (text : Bytes) (opening close : Tag)
      → find_matching_close m text opening ≡ some close
      → (opening.end + 1 ≤ close.end) × (close.end < length text)
  unfolding find_matching_close
  find_matching_close-within text opening close h =
      elim (Bool-cases (is_nil text || str_eq opening.name "" || opening.closing)) [
        | inl e ↦ ground (arith, e)
        | inr e ↦
            find_close-within (length text) text opening (opening.end + 1) 1 close
              (ground (arith, e))
      ]

  find_by_name-within :
      (fuel : ℕ) (text : Bytes) (pos : ℕ) (name : String) (closing : Bool) (tag : Tag)
      → find_by_name m fuel text pos name closing ≡ some tag
      → (pos ≤ tag.start) × (tag.start ≤ tag.end) × (tag.end < length text)
  unfolding find_by_name
  find_by_name-within zero text pos name closing tag h = cc
  find_by_name-within (suc fuel) text pos name closing tag h =
      elim (Bool-cases (not (ltb pos (length text)))) [
        | inl e ↦ ground (arith, e)
        | inr e ↦ elim (Option-cases (m.find_tag text pos)) [
          | inl f ↦ ground (arith, e, f)
          | inr (x, f) ↦
              let (low, within, high) = m.found_within text pos x f in
              ground (arith, e, f, find_by_name-within fuel text (x.end + 1) name closing tag)
        ]
      ]

  pub first_by_name-within :
      (text : Bytes) (start : ℕ) (name : String) (closing : Bool) (tag : Tag)
      → first_by_name m text start name closing ≡ some tag
      → (start ≤ tag.start) × (tag.start ≤ tag.end) × (tag.end < length text)
  first_by_name-within text start name closing tag h =
      find_by_name-within (length text) text start name closing tag h
