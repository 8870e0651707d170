-- ===== src/ActionRef/Tests.antt =====
-- action_ref.py on concrete fields, with a small function in the place of SHA-256.
use argentum_core.Base.{◌≡◌, ◌↔◌, ◌⊎◌, refl, [], ◌∷◌, ◌++◌, some}
use argentum_core.Bytes.{to_hex, hex_digit}
use argentum_core.Bytes.Toy.{toy, toy_digest, repeat}
use argentum_core.Json.{obj, Text, codes}
use argentum_core.Utf8.{utf8, has_surrogate, utf8_bytes, utf8_char}
use argentum_core.Jcs.{jcs_bytes, text_of, quoted, escape_all, escaped}
use argentum_core.Merkle.Shape.{Collision}
use argentum_core.ActionRef.{
  Preimage, derived, refused, bad_grammar, no_instant, compute_action_ref, compute_action_ref_v2,
  action_ref_version, v1, v2, validate_domain, check_timestamp, is_ascii, fits, is_instant, is_leap,
  days_in, number_at, value_from, jcs_encode, sort_items, insert_item, payload, json_item,
  joined_items, json_dumps, as_fields, StrDict, all_decimal,
}
use argentum_core.ActionRef.Agree.{jcs_encode-jcs_bytes, has_bmp_keys, is_bmp}
use argentum_core.ActionRef.Same.{same_fields, separated}
use argentum_core.ActionRef.Versions.{read_back}
use argentum_core.ActionRef.Domain.{derived_iff, InDomain}

abbrev made_at : Text → Text → Preimage
made_at agent time = record {
  agent_id = agent;
  action_type = codes "pay";
  scope = codes "s";
  timestamp = time;
}

abbrev payment : Text → Preimage
payment agent = made_at agent (codes "2026-05-15T10:00:00.123Z")

same_fields_example : (payment (codes "ac") ≡ payment (codes "ac")) ⊎ Collision toy
unfolding compute_action_ref compute_action_ref_v2 validate_domain check_timestamp is_ascii fits
    is_instant is_leap days_in number_at value_from jcs_encode sort_items insert_item json_item
    joined_items json_dumps payload all_decimal utf8 has_surrogate utf8_bytes utf8_char text_of
    quoted escape_all escaped to_hex hex_digit toy_digest
same_fields_example =
    same_fields toy (payment (codes "ac")) (payment (codes "ac")) {t = codes "6a" ++ repeat 62 48}
      refl refl

-- The small function gives one digest to this pair.
separated_example : Collision toy
unfolding compute_action_ref compute_action_ref_v2 validate_domain check_timestamp is_ascii fits
    is_instant is_leap days_in number_at value_from jcs_encode sort_items insert_item json_item
    joined_items json_dumps payload all_decimal utf8 has_surrogate utf8_bytes utf8_char text_of
    quoted escape_all escaped to_hex hex_digit toy_digest
separated_example =
    separated toy (payment (codes "ar")) (payment (codes "ac")) {t = codes "71" ++ repeat 62 48}
      refl refl

read_back_example :
    (compute_action_ref toy (payment (codes "aa")) ≡ derived (codes "58" ++ repeat 62 48)
      → action_ref_version (codes "58" ++ repeat 62 48) ≡ some v1)
    × (compute_action_ref_v2 toy (payment (codes "aa")) ≡ derived (codes "58" ++ repeat 62 48)
        → action_ref_version (codes "58" ++ repeat 62 48) ≡ some v2)
read_back_example = read_back toy (payment (codes "aa")) (codes "58" ++ repeat 62 48)

derived_iff_example :
    ((t : Text) × (compute_action_ref toy (payment (codes "aa")) ≡ derived t))
    ↔ InDomain (payment (codes "aa"))
derived_iff_example = derived_iff toy (payment (codes "aa"))

epoch_refused :
    compute_action_ref toy (made_at (codes "a") (codes "1778839200123")) ≡ refused bad_grammar
unfolding compute_action_ref compute_action_ref_v2 validate_domain check_timestamp is_ascii fits
    is_instant is_leap days_in number_at value_from jcs_encode sort_items insert_item json_item
    joined_items json_dumps payload all_decimal utf8 has_surrogate utf8_bytes utf8_char text_of
    quoted escape_all escaped to_hex hex_digit toy_digest
epoch_refused = refl

no_leap_day :
    compute_action_ref toy (made_at (codes "a") (codes "2026-02-29T10:00:00.123Z"))
    ≡ refused no_instant
unfolding compute_action_ref compute_action_ref_v2 validate_domain check_timestamp is_ascii fits
    is_instant is_leap days_in number_at value_from jcs_encode sort_items insert_item json_item
    joined_items json_dumps payload all_decimal utf8 has_surrogate utf8_bytes utf8_char text_of
    quoted escape_all escaped to_hex hex_digit toy_digest
no_leap_day = refl

-- Keys that are not sorted, one of them with an accent, one outside ASCII by far.
abbrev labels : StrDict
labels =
    (codes "zone", codes "north")
    ∷ (233 ∷ [], codes "a \"quoted\" value")
    ∷ (0x20ac ∷ [], 0x1f600 ∷ [])
    ∷ (codes "agent", codes "")
    ∷ []

jcs_encode-jcs_bytes_example : jcs_encode labels ≡ jcs_bytes (obj (as_fields labels))
unfolding has_bmp_keys is_bmp
jcs_encode-jcs_bytes_example = jcs_encode-jcs_bytes labels refl
