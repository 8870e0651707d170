-- ===== src/Jcs/Same.antt =====
-- Values with the same canonical bytes.
use argentum_core.Base.{◌≡◌, sym, ◌∙◌, some, inl, inr, Bool-cases, if-keeps}
use argentum_core.Bytes.{Bytes}
use argentum_core.Utf8.{utf8, utf8_bytes, has_surrogate, utf8_bytes-injective}
use argentum_core.Json.{
  Text, Json, Items, Fields, null, bool, int, float, str, arr, obj, no_items, item, no_fields,
  field,
}
use argentum_core.Jcs.{
  insert_key, key_lt, text_of, canonicalize, canonicalize_items, canonicalize_fields, in_profile,
  jcs_dumps, jcs_bytes,
}
use argentum_core.Jcs.Cut.{IsExact, ItemsExact, FieldsExact, text_of-injective}

insert_key-FieldsExact :
    (k : Text) (v : Json) (fs : Fields)
    → IsExact v
    → FieldsExact fs
    → FieldsExact (insert_key k v fs)
unfolding insert_key IsExact
insert_key-FieldsExact k v no_fields h hs = (h, tt)
insert_key-FieldsExact k v (field l w fs) h (hw, hs) =
    if-keeps FieldsExact (key_lt l k) (λ e. (hw, insert_key-FieldsExact k v fs h hs))
      (λ e. (h, (hw, hs)))

mutual
  unfolding canonicalize IsExact

  canonicalize-IsExact : (a : Json) → IsExact a → IsExact (canonicalize a)
  canonicalize-IsExact (float x) h = h
  canonicalize-IsExact (arr xs) h = canonicalize_items-ItemsExact xs h
  canonicalize-IsExact (obj fs) h = canonicalize_fields-FieldsExact fs h
  canonicalize-IsExact null h = tt
  canonicalize-IsExact (bool b) h = tt
  canonicalize-IsExact (int n) h = tt
  canonicalize-IsExact (str s) h = tt

  canonicalize_items-ItemsExact : (xs : Items) → ItemsExact xs → ItemsExact (canonicalize_items xs)
  canonicalize_items-ItemsExact no_items h = tt
  canonicalize_items-ItemsExact (item x xs) (h, hs) =
      (canonicalize-IsExact x h, canonicalize_items-ItemsExact xs hs)

  canonicalize_fields-FieldsExact :
      (fs : Fields) → FieldsExact fs → FieldsExact (canonicalize_fields fs)
  canonicalize_fields-FieldsExact no_fields h = tt
  canonicalize_fields-FieldsExact (field k v fs) (h, hs) =
      insert_key-FieldsExact k (canonicalize v) (canonicalize_fields fs) (canonicalize-IsExact v h)
        (canonicalize_fields-FieldsExact fs hs)

jcs_bytes-text :
    (a : Json) {x : Bytes} → jcs_bytes a ≡ some x → x ≡ utf8_bytes (text_of (canonicalize a))
unfolding jcs_bytes jcs_dumps utf8
jcs_bytes-text a e = elim (Bool-cases (in_profile (canonicalize a))) [
  | inr n ↦ let e' = rw (n, jcs_bytes) at e in cc
  | inl p ↦ elim (Bool-cases (has_surrogate (text_of (canonicalize a)))) [
    | inl s ↦ let e' = rw (p, s, jcs_bytes) at e in cc
    | inr s ↦ let e' = rw (p, s, jcs_bytes) at e in cc
  ]
]

-- Two values with no floats that have the same canonical bytes have the same canonical form: they
-- differ in no more than the order of the keys of their dicts.
pub jcs_bytes-injective :
    (a b : Json) {x : Bytes}
    → IsExact a
    → IsExact b
    → jcs_bytes a ≡ some x
    → jcs_bytes b ≡ some x
    → canonicalize a ≡ canonicalize b
jcs_bytes-injective a b ha hb ea eb =
    text_of-injective (canonicalize a) (canonicalize b) (canonicalize-IsExact a ha)
      (canonicalize-IsExact b hb)
      (utf8_bytes-injective _ _ (sym (jcs_bytes-text a ea) ∙ jcs_bytes-text b eb))
