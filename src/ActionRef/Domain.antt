-- ===== src/ActionRef/Domain.antt =====
-- The domain of `compute_action_ref`.
use argentum_core.Base.{
  ℕ, ◌<◌, ◌≡◌, ◌↔◌, refl, inl, inr, true, false, [], ◌∷◌, ◌++◌, none, arith, length, ◌==◌,
  Option-cases, ◌≢◌, ap, ◌∙◌,
}
use argentum_core.Bytes.{Sha256, hex_digit, to_hex}
use argentum_core.Json.{Text, codes, obj}
use argentum_core.Utf8.{has_surrogate, utf8, utf8_bytes}
use argentum_core.Jcs.{escaped, escape_all, quoted, text_of}
use argentum_core.ActionRef.{
  Preimage, derived, compute_action_ref, validate_domain, check_timestamp, is_ascii, fits,
  pattern_of, is_instant, jcs_encode, payload, sort_items, insert_item, as_fields, json_dumps,
}
use argentum_core.ActionRef.Printed.{json_dumps-text_of}

has_surrogate-append :
    (a b : Text)
    → has_surrogate a ≡ false
    → has_surrogate b ≡ false
    → has_surrogate (a ++ b) ≡ false
unfolding has_surrogate
has_surrogate-append [] b h g = g
has_surrogate-append (c ∷ a) b h g = ground (arith, has_surrogate-append a b)

escaped-plain : (c : ℕ) → c < 128 → has_surrogate (escaped c) ≡ false
unfolding has_surrogate escaped hex_digit
escaped-plain c h = ground arith

escape_all-plain : (t : Text) → is_ascii t ≡ true → has_surrogate (escape_all t) ≡ false
unfolding is_ascii escape_all has_surrogate
escape_all-plain [] h = refl
escape_all-plain (c ∷ t) h =
    has_surrogate-append (escaped c) (escape_all t) (escaped-plain c (ground arith))
      (escape_all-plain t (ground arith))

fits-ascii : (ps t : Text) → is_ascii ps ≡ true → fits ps t ≡ true → is_ascii t ≡ true
unfolding is_ascii fits
fits-ascii [] [] h f = refl
fits-ascii [] (c ∷ t) h f = absurd (ground arith)
fits-ascii (p ∷ ps) [] h f = absurd (ground arith)
fits-ascii (p ∷ ps) (c ∷ t) h f = ground (arith, fits-ascii ps t)

-- The domain of the canonical profile.
pub record InDomain (p : Preimage) : Type 0 where
  pub ascii_agent : is_ascii p.agent_id ≡ true
  pub ascii_type : is_ascii p.action_type ≡ true
  pub ascii_scope : is_ascii p.scope ≡ true
  pub has_scope : p.scope ≢ []
  pub of_form : fits pattern_of p.timestamp ≡ true
  pub instant : is_instant p.timestamp ≡ true

item-plain :
    (k v b : Text)
    → is_ascii k ≡ true
    → is_ascii v ≡ true
    → has_surrogate b ≡ false
    → has_surrogate (quoted k ++ 58 ∷ quoted v ++ b) ≡ false
unfolding quoted has_surrogate
item-plain k v b hk hv hb =
    has_surrogate-append (escape_all k ++ 58 ∷ 34 ∷ escape_all v) b
      (has_surrogate-append (escape_all k) (58 ∷ 34 ∷ escape_all v) (escape_all-plain k hk)
        (escape_all-plain v hv))
      hb

payload_text-plain :
    (p : Preimage)
    → InDomain p
    → has_surrogate (text_of (obj (as_fields (sort_items (payload p))))) ≡ false
unfolding sort_items insert_item payload as_fields text_of has_surrogate is_ascii
payload_text-plain p d = item-plain (codes "action_type") p.action_type _ refl d.ascii_type (
    item-plain (codes "agent_id") p.agent_id _ refl d.ascii_agent (
      item-plain (codes "scope") p.scope _ refl d.ascii_scope (
        item-plain (codes "timestamp") p.timestamp _ refl
          (fits-ascii pattern_of p.timestamp refl d.of_form) refl)))

payload-plain :
    (p : Preimage) → InDomain p → has_surrogate (json_dumps (sort_items (payload p))) ≡ false
payload-plain p d =
    ap has_surrogate (json_dumps-text_of (sort_items (payload p))) ∙ payload_text-plain p d

not_empty : (t : Text) → t ≢ [] → (length t == 0) ≡ false
not_empty [] h = absurd (h refl)
not_empty (c ∷ t) h = ground arith

validate_domain-InDomain : (p : Preimage) → InDomain p → validate_domain false p ≡ none
unfolding validate_domain check_timestamp
validate_domain-InDomain p d =
    rw
      (
        d.ascii_agent,
        d.ascii_type,
        d.ascii_scope,
        not_empty p.scope d.has_scope,
        d.of_form,
        d.instant,
      )
      refl

InDomain-validate_domain : (p : Preimage) → validate_domain false p ≡ none → InDomain p
unfolding validate_domain check_timestamp
InDomain-validate_domain p v = record {
  ascii_agent = ground arith;
  ascii_type = ground arith;
  ascii_scope = ground arith;
  has_scope = λ e. let v' = rw e at v in ground (arith, v');
  of_form = ground arith;
  instant = ground arith;
}

-- A reference is derived exactly where the agent, the type and the scope are ASCII, the scope is not
-- empty, and the timestamp has the form 0000-00-00T00:00:00.000Z and denotes an instant.
pub derived_iff :
    (sha : Sha256) (p : Preimage)
    → ((t : Text) × (compute_action_ref sha p ≡ derived t)) ↔ InDomain p
unfolding compute_action_ref jcs_encode utf8
derived_iff sha p = (forward, backward)
  where
    forward : (t : Text) × (compute_action_ref sha p ≡ derived t) → InDomain p
    forward (t, e) = elim (Option-cases (validate_domain false p)) [
      | inl n ↦ InDomain-validate_domain p n
      | inr (f, n) ↦ let e' = rw (n, compute_action_ref) at e in absurd (ground (arith, e'))
    ]

    backward : InDomain p → (t : Text) × (compute_action_ref sha p ≡ derived t)
    backward d = (
      to_hex (sha.digest (utf8_bytes (json_dumps (sort_items (payload p))))),
      rw (compute_action_ref, validate_domain-InDomain p d, jcs_encode, utf8, payload-plain p d)
          refl,
    )
