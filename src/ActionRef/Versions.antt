-- ===== src/ActionRef/Versions.antt =====
-- The syntax of the two versions of action references.
use argentum_core.Base.{
  ℕ, ◌/◌, ◌%◌, ◌<◌, ◌≡◌, refl, true, false, [], ◌∷◌, ◌++◌, some, arith, length, All,
}
use argentum_core.Bytes.{Bytes, Sha256, IsByte, to_hex, hex_digit}
use argentum_core.Json.{Text}
use argentum_core.ActionRef.{
  Preimage, derived, compute_action_ref, compute_action_ref_v2, v2_domain_tag, v1, v2,
  action_ref_version, is_v2, is_digest, all_lower_hex, is_lower_hex,
}
use argentum_core.ActionRef.Same.{derived_bytes, derived_bytes_v2}
use argentum_core.TrailHead.Hexes.{length-to_hex}

hex_digit-lower : (d : ℕ) → d < 16 → is_lower_hex (hex_digit d) ≡ true
unfolding hex_digit
hex_digit-lower d h = ground arith

all_lower_hex-to_hex : (b : Bytes) → All IsByte b → all_lower_hex (to_hex b) ≡ true
unfolding to_hex all_lower_hex
all_lower_hex-to_hex [] h = refl
all_lower_hex-to_hex (c ∷ b) h =
    rw (hex_digit-lower (c / 16) (omega (arith, h.0)), hex_digit-lower (c % 16) (omega arith))
      (all_lower_hex-to_hex b h.1)

is_digest-to_hex : (b : Bytes) → All IsByte b → length b ≡ 32 → is_digest (to_hex b) ≡ true
is_digest-to_hex b h n = rw (length-to_hex b, n, all_lower_hex-to_hex b h) refl

not_v2 : (t : Text) → all_lower_hex t ≡ true → is_v2 t ≡ false
unfolding all_lower_hex is_v2
not_v2 [] h = refl
not_v2 (a ∷ []) h = refl
not_v2 (a ∷ b ∷ []) h = refl
not_v2 (a ∷ b ∷ c ∷ t) h = ground arith

-- What compute_action_ref derives is read as version 1, and what compute_action_ref_v2 derives as version 2.
pub read_back :
    (sha : Sha256) (p : Preimage) (t : Text)
    → (compute_action_ref sha p ≡ derived t → action_ref_version t ≡ some v1)
      × (compute_action_ref_v2 sha p ≡ derived t → action_ref_version t ≡ some v2)
unfolding action_ref_version is_v2
read_back sha p t = (
  λ e.
      let (b, jb, tb) = derived_bytes sha p e in
      let d = sha.digest b in
      rw
        (
          tb,
          not_v2 (to_hex d) (all_lower_hex-to_hex d (sha.digest-IsByte b)),
          is_digest-to_hex d (sha.digest-IsByte b) (sha.length-digest b),
        )
        refl,
  λ e.
      let (b, jb, tb) = derived_bytes_v2 sha p e in
      let x = v2_domain_tag ++ b in
      rw (tb, is_digest-to_hex (sha.digest x) (sha.digest-IsByte x) (sha.length-digest x)) refl,
)
