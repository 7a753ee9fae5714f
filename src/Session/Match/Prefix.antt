-- ===== src/Session/Match/Prefix.antt =====
-- What the comparisons of messages mean (internal/upstreamsession/store.go): equal bytes are equal
-- messages, and a prefix is a prefix.
use deep_seek_web_to_api.Prelude.{
  ℕ, zero, suc, ◌≤◌, ◌<◌, ◌≡◌, refl, sym, ap, ◌∙◌, Bool, true, false, some, List, [], ◌∷◌, length,
  take, drop, arith, take_all,
}
use deep_seek_web_to_api.Prelude.Text.{str_eq, eq_iff}
use deep_seek_web_to_api.Session.Message.{
  Value, null, boolean, number, text, array, object, Items, nil, cons, Fields, end, field, value_eq,
  items_eq, fields_eq,
}
use deep_seek_web_to_api.Session.Match.{
  starts_with, message_prefix_equal, raw_messages_equal, leading_system_count, overlaps,
  largest_overlap,
}

bool_eq_sound : (a b : Bool) → value_eq (boolean a) (boolean b) ≡ true → a ≡ b
unfolding value_eq
bool_eq_sound true b h = sym h
bool_eq_sound false true h = cc
bool_eq_sound false false h = refl

-- Equal bytes are equal messages.
mutual
  unfolding value_eq items_eq fields_eq

  value_eq_sound : (a b : Value) → value_eq a b ≡ true → a ≡ b
  value_eq_sound null null h = refl
  value_eq_sound (boolean a) (boolean b) h = ap boolean (bool_eq_sound a b h)
  value_eq_sound (number a) (number b) h = ap number ((eq_iff a b).0 h)
  value_eq_sound (text a) (text b) h = ap text ((eq_iff a b).0 h)
  value_eq_sound (array a) (array b) h = ap array (items_eq_sound a b h)
  value_eq_sound (object a) (object b) h = ap object (fields_eq_sound a b h)
  value_eq_sound _ _ h = cc

  items_eq_sound : (a b : Items) → items_eq a b ≡ true → a ≡ b
  items_eq_sound nil nil h = refl
  items_eq_sound (cons a xs) (cons b ys) h =
      let p : value_eq a b ≡ true = ground arith in
      let q : items_eq xs ys ≡ true = ground arith in
      cc (value_eq_sound a b p, items_eq_sound xs ys q)
  items_eq_sound _ _ h = cc

  fields_eq_sound : (a b : Fields) → fields_eq a b ≡ true → a ≡ b
  fields_eq_sound end end h = refl
  fields_eq_sound (field k a xs) (field l b ys) h =
      let r : str_eq k l ≡ true = ground arith in
      let p : value_eq a b ≡ true = ground arith in
      let q : fields_eq xs ys ≡ true = ground arith in
      cc ((eq_iff k l).0 r, value_eq_sound a b p, fields_eq_sound xs ys q)
  fields_eq_sound _ _ h = cc

starts_with-take :
    (current expected : List Value)
    → starts_with current expected ≡ true
    → take (length expected) current ≡ expected
unfolding starts_with
starts_with-take current [] h = refl
starts_with-take [] (e ∷ es) h = cc
starts_with-take (c ∷ cs) (e ∷ es) h =
    let p : value_eq c e ≡ true = ground arith in
    let q : starts_with cs es ≡ true = ground arith in
    cc (value_eq_sound c e p, starts_with-take cs es q)

pub message_prefix_equal-take :
    (current expected : List Value) (offset : ℕ)
    → message_prefix_equal current expected offset ≡ true
    → take (length expected) (drop offset current) ≡ expected
unfolding message_prefix_equal
message_prefix_equal-take current expected offset h =
    let q : starts_with (drop offset current) expected ≡ true = ground arith in
    starts_with-take (drop offset current) expected q

pub raw_messages_equal_sound :
    (left right : List Value) → raw_messages_equal left right ≡ true → left ≡ right
unfolding raw_messages_equal
raw_messages_equal_sound left right h =
    let size : length left ≡ length right = ground arith in
    let q : starts_with left right ≡ true = ground arith in
    sym (take_all (length right) left (omega arith)) ∙ starts_with-take left right q

pub leading_system_count-le : (ms : List Value) → leading_system_count ms ≤ length ms
unfolding leading_system_count
leading_system_count-le [] = omega arith
leading_system_count-le (m ∷ ms) = ground (arith, leading_system_count-le ms)

pub largest_overlap-some :
    (conversation stored : List Value) (r k o : ℕ)
    → largest_overlap conversation stored r k ≡ some o
    → (o ≤ k) × (r < o) × (overlaps conversation stored r o ≡ true)
unfolding largest_overlap
largest_overlap-some conversation stored r zero o h = cc
largest_overlap-some conversation stored r (suc k) o h =
    ground (arith, largest_overlap-some conversation stored r k o)
