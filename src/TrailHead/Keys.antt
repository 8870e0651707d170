-- ===== src/TrailHead/Keys.antt =====
-- A key's value in a dict and in its canonical form; what one digest says of two dicts.
use argentum_core.Base.{
  ◌≡◌, refl, ap, sym, ◌∙◌, ◌⊎◌, inl, inr, false, Option, none, some, if◌then◌else◌, arith,
  Bool-cases, Option-cases,
}
use argentum_core.Bytes.{
  Bytes, bytes_eq, bytes_lt, bytes_eq-eq, bytes_lt_asymm, to_hex, to_hex_injective,
}
use argentum_core.Utf8.{utf16_be}
use argentum_core.Json.{Text, Json, Fields, no_fields, field, obj}
use argentum_core.Jcs.{key_lt, insert_key, canonicalize, canonicalize_fields, jcs_bytes}
use argentum_core.Jcs.Cut.{IsExact}
use argentum_core.Jcs.Same.{jcs_bytes-injective}
use argentum_core.Merkle.Shape.{Collision, same_input}
use argentum_core.TrailHead.{Setup, lookup, sha256_jcs}

bytes_lt_irrefl : (x : Bytes) → bytes_lt x x ≡ false
bytes_lt_irrefl x = ground (arith, bytes_lt_asymm x x)

lookup-insert_key :
    (k l : Text) (v : Json) (fs : Fields)
    → lookup k (insert_key l v fs) ≡ (if bytes_eq l k then some v else lookup k fs)
unfolding insert_key key_lt
lookup-insert_key k l v no_fields = refl
lookup-insert_key k l v (field j w fs) = ground (
  arith,
  lookup-insert_key k l v fs,
  bytes_lt_irrefl (utf16_be k),
  bytes_eq-eq l k,
  bytes_eq-eq j k,
)

abbrev pub canonical : Option Json → Option Json
canonical none = none
canonical (some j) = some (canonicalize j)

pub lookup-canonicalize :
    (k : Text) (fs : Fields) → lookup k (canonicalize_fields fs) ≡ canonical (lookup k fs)
unfolding canonicalize
lookup-canonicalize k no_fields = refl
lookup-canonicalize k (field l v fs) = elim (Bool-cases (bytes_eq l k)) [
  | inl e ↦ rw (lookup-insert_key k l (canonicalize v) (canonicalize_fields fs), e) refl
  | inr e ↦
      rw (lookup-insert_key k l (canonicalize v) (canonicalize_fields fs), e)
        (lookup-canonicalize k fs)
]

abbrev fields_of : Json → Fields
fields_of (obj fs) = fs
fields_of _ = no_fields

pub sha256_jcs-bytes :
    (s : Setup) (j : Json) {t : Text}
    → sha256_jcs s j ≡ some t
    → (b : Bytes) × (jcs_bytes j ≡ some b) × (t ≡ to_hex (s.sha.digest b))
unfolding sha256_jcs
sha256_jcs-bytes s j e = elim (Option-cases (jcs_bytes j)) [
  | inl n ↦ let e' = rw (n, sha256_jcs) at e in cc
  | inr (b, n) ↦ let e' = rw (n, sha256_jcs) at e in (b, n, cc)
]

-- Dicts without floats that have one digest have one value at each key, up to canonical form, unless
-- two inputs of SHA-256 with one digest are at hand.
pub same_digest :
    (s : Setup) (fs gs : Fields) {t : Text}
    → IsExact (obj fs)
    → IsExact (obj gs)
    → sha256_jcs s (obj fs) ≡ some t
    → sha256_jcs s (obj gs) ≡ some t
    → ((k : Text) → canonical (lookup k fs) ≡ canonical (lookup k gs)) ⊎ Collision s.sha
unfolding canonicalize
same_digest s fs gs hf hg ef eg =
    let (b, jb, tb) = sha256_jcs-bytes s (obj fs) ef in
    let (c, jc, tc) = sha256_jcs-bytes s (obj gs) eg in
    let d =
      to_hex_injective (s.sha.digest b) (s.sha.digest c) (s.sha.digest-IsByte b)
        (s.sha.digest-IsByte c) (sym tb ∙ tc) in
    elim (same_input s.sha b c d) [
      | inr x ↦ inr x
      | inl same ↦
          let e = jcs_bytes-injective (obj fs) (obj gs) hf hg (rw same at jb) jc in
          inl (λ k.
            sym (lookup-canonicalize k fs)
            ∙ ap (λ j. lookup k (fields_of j)) e
            ∙ lookup-canonicalize k gs)
    ]
