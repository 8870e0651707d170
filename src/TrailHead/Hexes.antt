-- ===== src/TrailHead/Hexes.antt =====
-- A digest as it is written, and `_is_hex64`.
use argentum_core.Base.{
  ℕ, ◌*◌, ◌/◌, ◌%◌, ◌<◌, ◌≡◌, refl, true, [], ◌∷◌, some, arith, length, map, All,
}
use argentum_core.Bytes.{Bytes, IsByte, to_hex, hex_digit, from_hex-to_hex, bytes_eq_refl}
use argentum_core.Json.{Text, Json, str}
use argentum_core.TrailHead.{Setup, lower, is_hex_text, is_hex64, sha256_jcs}
use argentum_core.TrailHead.Keys.{sha256_jcs-bytes}

pub length-to_hex : (b : Bytes) → length (to_hex b) ≡ 2 * length b
unfolding to_hex
length-to_hex [] = refl
length-to_hex (c ∷ b) = ground (arith, length-to_hex b)

lower-hex_digit : (d : ℕ) → d < 16 → lower (hex_digit d) ≡ hex_digit d
unfolding hex_digit
lower-hex_digit d h = ground arith

lower-to_hex : (b : Bytes) → All IsByte b → map lower (to_hex b) ≡ to_hex b
unfolding to_hex
lower-to_hex [] h = refl
lower-to_hex (c ∷ b) h =
    rw
      (
        lower-hex_digit (c / 16) (omega (arith, h.0)),
        lower-hex_digit (c % 16) (omega arith),
        lower-to_hex b h.1,
      )
      refl

is_hex_text-to_hex : (b : Bytes) → All IsByte b → length b ≡ 32 → is_hex_text (to_hex b) ≡ true
unfolding is_hex_text
is_hex_text-to_hex b h n =
    rw (length-to_hex b, n, from_hex-to_hex b h, lower-to_hex b h, bytes_eq_refl (to_hex b)) refl

pub is_hex64-sha256_jcs :
    (s : Setup) (j : Json) {t : Text} → sha256_jcs s j ≡ some t → is_hex64 (some (str t)) ≡ true
unfolding is_hex64
is_hex64-sha256_jcs s j e =
    let (b, q, h) = sha256_jcs-bytes s j e in
    rw h (is_hex_text-to_hex (s.sha.digest b) (s.sha.digest-IsByte b) (s.sha.length-digest b))
