-- ===== src/Jcs/Order.antt =====
-- The canonical text of dicts with the same entries in different orders.
use argentum_core.Base.{◌≡◌, ◌≢◌, refl, ap, ◌∙◌, true, [], ◌∷◌, if◌then◌else◌, arith, Option}
use argentum_core.Bytes.{Bytes, bytes_lt, bytes_lt_asymm, bytes_lt_total}
use argentum_core.Utf8.{utf16_be}
use argentum_core.Json.{Text, Json, Fields, obj, no_fields, field}
use argentum_core.Jcs.{
  key_lt, insert_key, canonicalize, canonicalize_fields, text_of, in_profile, jcs_dumps,
}

bytes_lt_trans : (x y z : Bytes) → bytes_lt x y ≡ true → bytes_lt y z ≡ true → bytes_lt x z ≡ true
bytes_lt_trans x y [] h k = ground arith
bytes_lt_trans x [] (c ∷ z) h k = ground arith
bytes_lt_trans [] (b ∷ y) (c ∷ z) h k = refl
bytes_lt_trans (a ∷ x) (b ∷ y) (c ∷ z) h k = ground (arith, bytes_lt_trans x y z)

-- Two entries can be inserted in either order.
insert_key-swap :
    (k l : Text) (v w : Json)
    → utf16_be k ≢ utf16_be l
    → (fs : Fields) → insert_key k v (insert_key l w fs) ≡ insert_key l w (insert_key k v fs)
unfolding insert_key key_lt
insert_key-swap k l v w n no_fields =
    ground
      (arith, bytes_lt_asymm (utf16_be k) (utf16_be l), bytes_lt_total (utf16_be k) (utf16_be l))
insert_key-swap k l v w n (field j x fs) = ground (
  arith,
  insert_key-swap k l v w n fs,
  bytes_lt_asymm (utf16_be k) (utf16_be l),
  bytes_lt_total (utf16_be k) (utf16_be l),
  bytes_lt_asymm (utf16_be k) (utf16_be j),
  bytes_lt_asymm (utf16_be l) (utf16_be j),
  bytes_lt_total (utf16_be k) (utf16_be j),
  bytes_lt_total (utf16_be l) (utf16_be j),
  bytes_lt_trans (utf16_be k) (utf16_be l) (utf16_be j),
  bytes_lt_trans (utf16_be l) (utf16_be k) (utf16_be j),
  bytes_lt_trans (utf16_be k) (utf16_be j) (utf16_be l),
  bytes_lt_trans (utf16_be l) (utf16_be j) (utf16_be k),
  bytes_lt_trans (utf16_be j) (utf16_be k) (utf16_be l),
  bytes_lt_trans (utf16_be j) (utf16_be l) (utf16_be k),
)

-- The same entries in another order, where the keys that change places differ as UTF-16.
pub data Reordered : Fields → Fields → Type 0 where
  same : (fs : Fields) → Reordered fs fs
  swap :
      (k l : Text) (v w : Json) (fs : Fields)
      → utf16_be k ≢ utf16_be l
      → Reordered (field k v (field l w fs)) (field l w (field k v fs))
  under :
      (k : Text) (v : Json) {fs gs : Fields}
      → Reordered fs gs
      → Reordered (field k v fs) (field k v gs)
  after : {fs gs hs : Fields} → Reordered fs gs → Reordered gs hs → Reordered fs hs

canonicalize_fields-Reordered :
    {fs gs : Fields} → Reordered fs gs → canonicalize_fields fs ≡ canonicalize_fields gs
unfolding canonicalize
canonicalize_fields-Reordered (same fs) = refl
canonicalize_fields-Reordered (swap k l v w fs n) =
    insert_key-swap k l (canonicalize v) (canonicalize w) n (canonicalize_fields fs)
canonicalize_fields-Reordered (under k v r) =
    ap (insert_key k (canonicalize v)) (canonicalize_fields-Reordered r)
canonicalize_fields-Reordered (after r s) =
    canonicalize_fields-Reordered r ∙ canonicalize_fields-Reordered s

-- Dicts with the same entries, inserted in any order, have the same canonical text, or none, if no two
-- keys that change places are one text in UTF-16.
pub order_independent : {fs gs : Fields} → Reordered fs gs → jcs_dumps (obj fs) ≡ jcs_dumps (obj gs)
unfolding jcs_dumps canonicalize
order_independent r =
    ap (λ fs. if in_profile (obj fs) then Option.some (text_of (obj fs)) else Option.none)
      (canonicalize_fields-Reordered r)
