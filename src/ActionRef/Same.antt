-- ===== src/ActionRef/Same.antt =====
-- The four fields behind an action reference, and the two derivations.
use argentum_core.Base.{
  ℕ, ◌≡◌, refl, sym, ◌∙◌, ◌⊎◌, inl, inr, false, [], ◌∷◌, ◌++◌, some, arith, Option-cases,
}
use argentum_core.Bytes.{Bytes, Sha256, to_hex, to_hex_injective}
use argentum_core.Json.{Text, codes, str, obj, no_fields, field}
use argentum_core.Utf8.{utf8, utf8_char, utf8_bytes, utf8_bytes-injective}
use argentum_core.Jcs.{text_of}
use argentum_core.Jcs.Cut.{IsExact, text_of-injective}
use argentum_core.Merkle.Shape.{Collision, same_input}
use argentum_core.ActionRef.{
  Preimage, derived, compute_action_ref, compute_action_ref_v2, v2_domain_tag, validate_domain,
  jcs_encode, payload, sort_items, insert_item, StrDict, as_fields,
}
use argentum_core.ActionRef.Printed.{json_dumps-text_of}

one_digest :
    (sha : Sha256) (b c : Bytes)
    → to_hex (sha.digest b) ≡ to_hex (sha.digest c)
    → sha.digest b ≡ sha.digest c
one_digest sha b c e =
    to_hex_injective (sha.digest b) (sha.digest c) (sha.digest-IsByte b) (sha.digest-IsByte c) e

-- The payload as it is sorted.
sorted_payload :
    (p : Preimage)
    → as_fields (sort_items (payload p))
      ≡ field (codes "action_type") (str p.action_type) (
          field (codes "agent_id") (str p.agent_id) (
            field
              (codes "scope")
              (str p.scope)
              (field (codes "timestamp") (str p.timestamp) no_fields)))
unfolding sort_items insert_item payload as_fields
sorted_payload p = refl

payload-IsExact : (p : Preimage) → IsExact (obj (as_fields (sort_items (payload p))))
unfolding sort_items insert_item payload IsExact as_fields
payload-IsExact p = (tt, (tt, (tt, (tt, tt))))

encoded :
    (d : StrDict) {b : Bytes}
    → jcs_encode d ≡ some b
    → b ≡ utf8_bytes (text_of (obj (as_fields (sort_items d))))
unfolding jcs_encode utf8
encoded d e = ground (arith, json_dumps-text_of (sort_items d))

pub derived_bytes :
    (sha : Sha256) (p : Preimage) {t : Text}
    → compute_action_ref sha p ≡ derived t
    → (b : Bytes) × (jcs_encode (payload p) ≡ some b) × (t ≡ to_hex (sha.digest b))
unfolding compute_action_ref
derived_bytes sha p e = elim (Option-cases (validate_domain false p)) [
  | inr (f, n) ↦ let e' = rw (n, compute_action_ref) at e in absurd (ground (arith, e'))
  | inl n ↦ elim (Option-cases (jcs_encode (payload p))) [
    | inl m ↦ let e' = rw (n, m, compute_action_ref) at e in absurd (ground (arith, e'))
    | inr (b, m) ↦ let e' = rw (n, m, compute_action_ref) at e in (b, m, ground (arith, e'))
  ]
]

pub derived_bytes_v2 :
    (sha : Sha256) (p : Preimage) {t : Text}
    → compute_action_ref_v2 sha p ≡ derived t
    → (b : Bytes) × (jcs_encode (payload p) ≡ some b)
      × (t ≡ codes "v2:" ++ to_hex (sha.digest (v2_domain_tag ++ b)))
unfolding compute_action_ref_v2
derived_bytes_v2 sha p e = elim (Option-cases (validate_domain false p)) [
  | inr (f, n) ↦ let e' = rw (n, compute_action_ref_v2) at e in absurd (ground (arith, e'))
  | inl n ↦ elim (Option-cases (jcs_encode (payload p))) [
    | inl m ↦ let e' = rw (n, m, compute_action_ref_v2) at e in absurd (ground (arith, e'))
    | inr (b, m) ↦ let e' = rw (n, m, compute_action_ref_v2) at e in (b, m, ground (arith, e'))
  ]
]

same_payload :
    (p q : Preimage) {b : Bytes}
    → jcs_encode (payload p) ≡ some b
    → jcs_encode (payload q) ≡ some b
    → p ≡ q
same_payload p q ep eq =
    let e =
      text_of-injective (obj (as_fields (sort_items (payload p))))
        (obj (as_fields (sort_items (payload q)))) (payload-IsExact p) (payload-IsExact q)
        (utf8_bytes-injective _ _ (sym (encoded (payload p) ep) ∙ encoded (payload q) eq)) in
    let e' = rw (sorted_payload p, sorted_payload q) at e in
    let a : p.agent_id ≡ q.agent_id = cc in
    let t : p.action_type ≡ q.action_type = cc in
    let s : p.scope ≡ q.scope = cc in
    let m : p.timestamp ≡ q.timestamp = cc in
    λ i. record { agent_id = a i; action_type = t i; scope = s i; timestamp = m i }

-- Two derivations of one reference have the same four fields, or two different byte strings with one
-- SHA-256 digest are at hand.
pub same_fields :
    (sha : Sha256) (p q : Preimage) {t : Text}
    → compute_action_ref sha p ≡ derived t
    → compute_action_ref sha q ≡ derived t
    → (p ≡ q) ⊎ Collision sha
same_fields sha p q ep eq =
    let (b, jb, tb) = derived_bytes sha p ep in
    let (c, jc, tc) = derived_bytes sha q eq in
    elim (same_input sha b c (one_digest sha b c (sym tb ∙ tc))) [
      | inl e ↦ inl (same_payload p q jb (rw (← e) at jc))
      | inr x ↦ inr x
    ]

first_byte : Bytes → ℕ
first_byte [] = 0
first_byte (c ∷ b) = c

starts_object : (p : Preimage) {b : Bytes} → jcs_encode (payload p) ≡ some b → first_byte b ≡ 123
unfolding first_byte sort_items insert_item payload as_fields text_of utf8_bytes utf8_char
starts_object p e = rw (encoded (payload p) e) refl

-- A version 1 reference is never the digest of a version 2 one, whatever the fields of either, unless
-- two different byte strings with one SHA-256 digest are at hand.
pub separated :
    (sha : Sha256) (p q : Preimage) {t : Text}
    → compute_action_ref sha p ≡ derived t
    → compute_action_ref_v2 sha q ≡ derived (codes "v2:" ++ t)
    → Collision sha
unfolding first_byte
separated sha p q {t = t} ep eq =
    let (b, jb, tb) = derived_bytes sha p ep in
    let (c, jc, tc) = derived_bytes_v2 sha q eq in
    let tc' : t ≡ to_hex (sha.digest (v2_domain_tag ++ c)) = cc in
    elim (same_input sha b (v2_domain_tag ++ c)
      (one_digest sha b (v2_domain_tag ++ c) (sym tb ∙ tc'))) [
        | inl e ↦ absurd (let h = starts_object p jb in let g = rw e at h in ground (arith, g))
        | inr x ↦ x
      ]
