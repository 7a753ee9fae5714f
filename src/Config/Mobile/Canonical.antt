-- ===== src/Config/Mobile/Canonical.antt =====
-- The stored form of a mobile number is canonical (internal/config/mobile.go).
use deep_seek_web_to_api.Prelude.{
  ◌⊎◌, ◌≡◌, refl, Bool, true, false, arith, inl, inr, if◌then◌else◌, Bool-cases,
}
use deep_seek_web_to_api.Prelude.Text.{
  String, concat, is_empty, NoSpace, trim_space, trim_space-NoSpace,
}
use deep_seek_web_to_api.Config.Mobile.{
  is_digit, has_plus, collect_digits, extract_mobile_digits, normalize_digits, drop_two,
  normalize_mobile_for_storage, is_china_mobile_with_country_code, is_china_mainland_mobile_digits,
}

-- Digits alone.
abbrev IsDigits : String → Type 0
IsDigits String.[] = Unit {0}
IsDigits (String.◌∷◌ c s) = (is_digit c ≡ true) × IsDigits s

collect_digits-IsDigits : (s : String) → IsDigits (collect_digits s)
unfolding collect_digits
collect_digits-IsDigits String.[] = tt
collect_digits-IsDigits (String.◌∷◌ c s) = ground (arith, collect_digits-IsDigits s)

collect_digits-of_IsDigits : (s : String) → IsDigits s → collect_digits s ≡ s
unfolding collect_digits
collect_digits-of_IsDigits String.[] h = refl
collect_digits-of_IsDigits (String.◌∷◌ c s) h = ground (arith, collect_digits-of_IsDigits s h.1)

drop_two-IsDigits : (s : String) → IsDigits s → IsDigits (drop_two s)
drop_two-IsDigits String.[] h = tt
drop_two-IsDigits (String.◌∷◌ c String.[]) h = tt
drop_two-IsDigits (String.◌∷◌ c (String.◌∷◌ d s)) h = h.1.1

IsDigits-NoSpace : (s : String) → IsDigits s → NoSpace s
IsDigits-NoSpace String.[] h = tt
IsDigits-NoSpace (String.◌∷◌ c s) h = ground (arith, IsDigits-NoSpace s h.1)

-- A plus and digits are left alone.
normalize_plus :
    (d : String)
    → IsDigits d
    → is_empty d ≡ false
    → normalize_mobile_for_storage (concat "+" d) ≡ concat "+" d
unfolding normalize_mobile_for_storage extract_mobile_digits normalize_digits has_plus
    collect_digits
normalize_plus d h e = rw (
  trim_space-NoSpace (concat "+" d) (refl, IsDigits-NoSpace d h),
  collect_digits-of_IsDigits d h,
  e,
)

-- What is stored for any text is empty, or a plus and one digit or more.
abbrev IsStored : String → Type 0
IsStored s = (s ≡ "") ⊎ ((d : String) × (s ≡ concat "+" d) × IsDigits d × (is_empty d ≡ false))

country_code-IsStored : (d : String) → IsDigits d → IsStored (concat "+86" d)
country_code-IsStored d h = inr (concat "86" d, refl, (refl, (refl, h)), refl)

normalize_digits-IsStored :
    (d : String) (plus : Bool) → IsDigits d → IsStored (normalize_digits d plus)
unfolding normalize_digits
normalize_digits-IsStored d plus h = elim (Bool-cases (is_empty d)) [
  | inl e ↦ rw e (inl refl)
  | inr e ↦
      let plain : IsStored (concat "+" d) = inr (d, refl, h, e) in
      rw e (
        choose (is_china_mobile_with_country_code d) (is_china_mainland_mobile_digits d) plus plain
          (country_code-IsStored d h) (country_code-IsStored (drop_two d) (drop_two-IsDigits d h)))
]
  where
    choose :
        (b c p : Bool) {u v w : String}
        → IsStored u
        → IsStored v
        → IsStored w
        → IsStored (if p then u else if b then w else if c then v else u)
    choose b c true hu hv hw = hu
    choose true c false hu hv hw = hw
    choose false true false hu hv hw = hv
    choose false false false hu hv hw = hu

stored-fixed : (s : String) → IsStored s → normalize_mobile_for_storage s ≡ s
unfolding normalize_mobile_for_storage extract_mobile_digits normalize_digits trim_space
stored-fixed s (inl e) = rw e
stored-fixed s (inr (d, e, h, n)) = rw e (normalize_plus d h n)

normalize_mobile-IsStored : (raw : String) → IsStored (normalize_mobile_for_storage raw)
unfolding normalize_mobile_for_storage extract_mobile_digits
normalize_mobile-IsStored raw = elim (Bool-cases (is_empty (trim_space raw))) [
  | inl e ↦ rw e (inl refl)
  | inr e ↦ rw e (normalize_digits-IsStored _ _ (collect_digits-IsDigits (trim_space raw)))
]

-- Storing a mobile number in its normal form a second time changes nothing: the comparison key of
-- a number, whatever separators or country code it was typed with, is the key of its own key.
pub normalize_mobile_for_storage_idem :
    (raw : String)
    → normalize_mobile_for_storage (normalize_mobile_for_storage raw)
      ≡ normalize_mobile_for_storage raw
normalize_mobile_for_storage_idem raw = stored-fixed _ (normalize_mobile-IsStored raw)
