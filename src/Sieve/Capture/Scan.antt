-- ===== src/Sieve/Capture/Scan.antt =====
-- What the search for tool calls in captured text keeps (internal/toolstream/tool_sieve_xml.go).
use deep_seek_web_to_api.Prelude.{
  ℕ, zero, suc, ◌+◌, ◌≤◌, ◌<◌, ◌≡◌, refl, sym, subst, Bool, true, false, not, ◌||◌, some, length,
  ltb, arith, Bool-cases, Option-cases, inl, inr,
}
use deep_seek_web_to_api.Prelude.Text.{str_eq}
use deep_seek_web_to_api.Sieve.Bytes.{Bytes}
use deep_seek_web_to_api.Sieve.Markup.{Tag, Markup, first_by_name}
use deep_seek_web_to_api.Sieve.Markup.Closing.{first_by_name-within}
use deep_seek_web_to_api.Sieve.Capture.{
  Rejected, Verdict, accepts, goes_on, judge, tag_verdict, scan_tags, bare_invoke,
}

module _ {Call : Type 0} (m : Markup Call) where
  -- The closing tag stands behind the `invoke` tag.
  pub bare_invoke-order :
      (captured : Bytes) (invoke close : Tag)
      → bare_invoke m captured ≡ some (invoke, close)
      → (invoke.start ≤ close.end + 1) × (close.end < length captured)
  unfolding bare_invoke
  bare_invoke-order captured invoke close h =
      elim (Option-cases (first_by_name m captured 0 "invoke" false)) [
        | inl e ↦ ground (arith, e)
        | inr (i, e) ↦
            elim (Option-cases (first_by_name m captured (i.start + 1) "tool_calls" true)) [
              | inl f ↦ ground (arith, e, f)
              | inr (c, f) ↦
                  let (low, within, high) =
                    first_by_name-within m captured (i.start + 1) "tool_calls" true c f in
                  let same : (i.start ≡ invoke.start) × (c.end ≡ close.end) =
                    ground (arith, e, f) in
                  (omega (arith, same.0, same.1), omega (arith, high, same.1))
            ]
      ]

  -- A property of verdicts that each opening tag keeps.
  module _ (P : Verdict Call → Type 0) (captured : Bytes)
      (keeps : (tag : Tag) (o : Bool) (r : Rejected)
        → tag.start ≤ tag.end
        → P (goes_on o r)
        → P (judge m captured tag o r)) where
    tag_verdict-keeps :
        (tag : Tag) (o : Bool) (r : Rejected)
        → tag.start ≤ tag.end
        → P (goes_on o r)
        → P (tag_verdict m captured tag o r)
    unfolding tag_verdict
    tag_verdict-keeps tag o r h w =
        elim (Bool-cases (tag.closing || not (str_eq tag.name "tool_calls"))) [
          | inl e ↦
              let passed : tag_verdict m captured tag o r ≡ goes_on o r =
                rw (tag_verdict, e) refl in
              subst P (sym passed) w
          | inr e ↦
              let judged : tag_verdict m captured tag o r ≡ judge m captured tag o r =
                rw (tag_verdict, e) refl in
              subst P (sym judged) (keeps tag o r h w)
        ]

    pub scan_tags-keeps :
        (fuel from : ℕ) (o : Bool) (r : Rejected)
        → P (goes_on o r)
        → P (scan_tags m fuel captured from o r)
    unfolding scan_tags
    scan_tags-keeps zero from o r w = w
    scan_tags-keeps (suc fuel) from o r w = elim (Bool-cases (not (ltb from (length captured)))) [
      | inl e ↦
          let stopped : scan_tags m (suc fuel) captured from o r ≡ goes_on o r =
            rw (scan_tags, e) refl in
          subst P (sym stopped) w
      | inr e ↦ elim (Option-cases (m.find_tag captured from)) [
        | inl f ↦
            let stopped : scan_tags m (suc fuel) captured from o r ≡ goes_on o r = rw (e, f) refl in
            subst P (sym stopped) w
        | inr (tag, f) ↦
            let (_, within, _) = m.found_within captured from tag f in
            after tag e f (λ p q. scan_tags-keeps fuel (tag.end + 1) p q)
              (tag_verdict m captured tag o r) refl (tag_verdict-keeps tag o r within w)
      ]
    ]
      where
        after :
            (tag : Tag)
            → not (ltb from (length captured)) ≡ false
            → m.find_tag captured from ≡ some tag
            → ((p : Bool) (q : Rejected)
                → P (goes_on p q)
                → P (scan_tags m fuel captured (tag.end + 1) p q))
            → (v : Verdict Call) → tag_verdict m captured tag o r ≡ v
            → P v
            → P (scan_tags m (suc fuel) captured from o r)
        after tag e f later (accepts taken) g w =
            let done : scan_tags m (suc fuel) captured from o r ≡ accepts taken =
              rw (e, f, g) refl in
            subst P (sym done) w
        after tag e f later (goes_on p q) g w =
            let opened : scan_tags m (suc fuel) captured from o r
                ≡ scan_tags m fuel captured (tag.end + 1) p q =
              rw (e, f, g) refl in
            subst P (sym opened) (later p q w)
