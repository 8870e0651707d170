-- ===== src/Jcs/Tests.antt =====
-- jcs.py on concrete values.
use argentum_core.Base.{◌≡◌, refl, arith}
use argentum_core.Utf8.{utf16_be, utf16_be_char, utf8, has_surrogate, utf8_bytes, utf8_char}
use argentum_core.Json.{Json, codes, int, str, obj, field, no_fields, pos}
use argentum_core.Jcs.{
  jcs_bytes, jcs_dumps, in_profile, canonicalize, insert_key, key_lt, int_in_profile, max_safe,
  bool_text, decimal, digits, escape_all, escaped, int_text, quoted, text_of,
}
use argentum_core.Jcs.Cut.{IsExact}
use argentum_core.Jcs.Same.{jcs_bytes-injective}
use argentum_core.Jcs.Order.{order_independent, swap}

abbrev one_way : Json
one_way = obj (field (codes "b") (int (pos 1)) (field (codes "a") (str (codes "x")) no_fields))

abbrev other_way : Json
other_way = obj (field (codes "a") (str (codes "x")) (field (codes "b") (int (pos 1)) no_fields))

jcs_bytes-injective_example : canonicalize one_way ≡ canonicalize other_way
unfolding jcs_bytes jcs_dumps in_profile canonicalize insert_key key_lt utf16_be utf16_be_char
    int_in_profile max_safe utf8 has_surrogate bool_text decimal digits escape_all escaped int_text
    quoted text_of utf8_bytes utf8_char IsExact
jcs_bytes-injective_example =
    jcs_bytes-injective one_way other_way {x = codes "{\"a\":\"x\",\"b\":1}"} (tt, (tt, tt))
      (tt, (tt, tt)) refl refl

order_independent_example : jcs_dumps one_way ≡ jcs_dumps other_way
unfolding utf16_be utf16_be_char
order_independent_example =
    order_independent
      (swap (codes "b") (codes "a") (int (pos 1)) (str (codes "x")) no_fields (λ e. ground arith))
