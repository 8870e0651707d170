-- ===== src/ActionRef/Agree.antt =====
-- The two encoders of canonical JSON in the program, on dicts of strings: `_jcs_encode` of
-- action_ref.py and `jcs_bytes` of jcs.py.
use argentum_core.Base.{
  ◌≡◌, refl, sym, ap, ◌∙◌, ◌&&◌, Bool, true, [], ◌∷◌, arith, ltb, Bool-cases, inl, inr,
}
use argentum_core.Bytes.{bytes_lt}
use argentum_core.Json.{Text, Fields, str, obj, field}
use argentum_core.Utf8.{utf8, utf16_be, utf16_be_char}
use argentum_core.Jcs.{
  canonicalize, canonicalize_fields, insert_key, key_lt, in_profile, jcs_dumps, jcs_bytes, text_of,
  fields_in_profile,
}
use argentum_core.ActionRef.{StrDict, jcs_encode, sort_items, insert_item, as_fields}
use argentum_core.ActionRef.Printed.{json_dumps-text_of, as_fields-in_profile}

-- Every character is of the basic multilingual plane.
unfoldable pub is_bmp : Text → Bool
is_bmp [] = true
is_bmp (c ∷ t) = ltb c 0x10000 && is_bmp t

unfoldable pub has_bmp_keys : StrDict → Bool
has_bmp_keys [] = true
has_bmp_keys ((k, v) ∷ d) = is_bmp k && has_bmp_keys d

-- In that plane the order of code units is that of code points.
key_lt-bmp : (k l : Text) → is_bmp k ≡ true → is_bmp l ≡ true → key_lt k l ≡ bytes_lt k l
unfolding key_lt utf16_be utf16_be_char is_bmp
key_lt-bmp k [] h g = refl
key_lt-bmp [] (d ∷ l) h g = ground arith
key_lt-bmp (c ∷ k) (d ∷ l) h g = ground (arith, key_lt-bmp k l)

insert_item-bmp :
    (k v : Text) (d : StrDict)
    → is_bmp k ≡ true
    → has_bmp_keys d ≡ true
    → has_bmp_keys (insert_item k v d) ≡ true
unfolding has_bmp_keys insert_item
insert_item-bmp k v [] h g = ground arith
insert_item-bmp k v ((l, w) ∷ d) h g = ground (arith, insert_item-bmp k v d)

sort_items-bmp : (d : StrDict) → has_bmp_keys d ≡ true → has_bmp_keys (sort_items d) ≡ true
unfolding has_bmp_keys sort_items
sort_items-bmp [] h = refl
sort_items-bmp ((k, v) ∷ d) h =
    insert_item-bmp k v (sort_items d) (ground arith) (sort_items-bmp d (ground arith))

-- The two insertions put an item in the same place.
insert_item-insert_key :
    (k v : Text) (d : StrDict)
    → is_bmp k ≡ true
    → has_bmp_keys d ≡ true
    → as_fields (insert_item k v d) ≡ insert_key k (str v) (as_fields d)
unfolding has_bmp_keys insert_item insert_key as_fields
insert_item-insert_key k v [] h g = refl
insert_item-insert_key k v ((l, w) ∷ d) h g =
    let rest = insert_item-insert_key k v d h (ground arith) in
    rw (key_lt-bmp l k (ground arith) h) (elim (Bool-cases (bytes_lt l k)) [
      | inl e ↦ rw e (ap (field l (str w)) rest)
      | inr e ↦ rw e refl
    ])

sort_items-canonicalize :
    (d : StrDict)
    → has_bmp_keys d ≡ true
    → as_fields (sort_items d) ≡ canonicalize_fields (as_fields d)
unfolding has_bmp_keys sort_items canonicalize as_fields
sort_items-canonicalize [] h = refl
sort_items-canonicalize ((k, v) ∷ d) h =
    insert_item-insert_key k v (sort_items d) (ground arith) (sort_items-bmp d (ground arith))
    ∙ ap (insert_key k (str v)) (sort_items-canonicalize d (ground arith))

-- What `jcs_bytes` gives for a dict that is in the profile once it is sorted.
sorted_bytes :
    (fs gs : Fields)
    → canonicalize_fields fs ≡ gs
    → fields_in_profile gs ≡ true
    → jcs_bytes (obj fs) ≡ utf8 (text_of (obj gs))
unfolding jcs_bytes jcs_dumps canonicalize in_profile
sorted_bytes fs gs e g = rw (jcs_bytes, jcs_dumps, e, g) refl

-- For every dict of strings whose keys have characters below U+10000 only, _jcs_encode of action_ref.py,
-- which sorts the items by code point and has json.dumps print the dict, and jcs_bytes of jcs.py,
-- which sorts the keys by UTF-16 code unit and prints the entries itself, give the same bytes, or both raise.
pub jcs_encode-jcs_bytes :
    (d : StrDict) → has_bmp_keys d ≡ true → jcs_encode d ≡ jcs_bytes (obj (as_fields d))
unfolding jcs_encode
jcs_encode-jcs_bytes d h =
    ap utf8 (json_dumps-text_of (sort_items d))
    ∙ sym (
        sorted_bytes (as_fields d) (as_fields (sort_items d)) (sym (sort_items-canonicalize d h))
          (as_fields-in_profile (sort_items d)))
