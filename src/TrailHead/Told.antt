-- ===== src/TrailHead/Told.antt =====
-- What `verify_trail` answers on the beginning of a log that a producer made.
use argentum_core.Base.{
  ℕ, ◌+◌, ◌≡◌, refl, ap, ◌∙◌, inl, inr, Bool, true, false, List, [], ◌∷◌, Option, none, some, arith,
  length, map, Option-cases,
}
use argentum_core.Bytes.{bytes_eq_refl}
use argentum_core.Json.{Text, codes, pos, Json, Fields, str, obj}
use argentum_core.Json.Equal.{option_eq, json_eq_refl_text}
use argentum_core.TrailHead.{Setup, lookup, get, compute_head, entry_preimage, is_hex64}
use argentum_core.TrailHead.Verify.{
  passed, has_shape, check_entries, check_shape, first_agent, check_order, seqs, seq_of, is_range,
  check_entry, check_chain, Sealed, check_anchor,
}
use argentum_core.TrailHead.Decide.{
  check_agent_seq, any_counter, check_complete, verify_trail, last_seq,
}
use argentum_core.TrailHead.Chain.{not_null-some, as_text}
use argentum_core.TrailHead.Checked.{compute_head-preimage, prev_text}
use argentum_core.TrailHead.Made.{IsMade, AllMade}
use argentum_core.TrailHead.Hexes.{is_hex64-sha256_jcs}

-- No anchor.
abbrev pub no_anchor : Sealed
no_anchor = record { dict = none; proof = none; root = none }

pub made_parts :
    {s : Setup} {agent : Text} {k : ℕ} {p : Option Json} {e : Fields} (x : IsMade s agent k p e)
    → (is_hex64 (get (codes "action_ref") e) ≡ true) × (is_hex64 (some (str x.head)) ≡ true)
made_parts {s = s} {agent = agent} {k = k} {p = p} {e = e} x =
    let (hr, (hp, (hc, d))) =
      compute_head-preimage s (some (str agent)) (pos k) (get (codes "action_ref") e) p none
        x.made in
    (hr, is_hex64-sha256_jcs s _ d)

has_shape-IsMade :
    {s : Setup} {agent : Text} {k : ℕ} {p : Option Json} {e : Fields}
    → IsMade s agent k p e
    → has_shape e ≡ true
unfolding has_shape
has_shape-IsMade x = let (a, b) = made_parts x in rw (x.of_head, b, a, x.of_seq) refl

pub seq_of-IsMade :
    {s : Setup} {agent : Text} {k : ℕ} {p : Option Json} {e : Fields}
    → IsMade s agent k p e
    → seq_of e ≡ pos k
seq_of-IsMade {e = e} x = rw (not_null-some (lookup (codes "seq") e) x.of_seq, seq_of) refl

check_entries-AllMade :
    (s : Setup) (agent : Text) (k : ℕ) (p : Option Json) (es : List Fields)
    → AllMade s agent k p es
    → check_entries (some (str agent)) (map obj es) ≡ passed es
unfolding AllMade check_entries
check_entries-AllMade s agent k p [] c = refl
check_entries-AllMade s agent k p (e ∷ es) (x, c) =
    rw
      (
        has_shape-IsMade x,
        x.of_agent,
        json_eq_refl_text agent,
        check_entries-AllMade s agent (k + 1) (some (str x.head)) es c,
      )
      refl

is_range-AllMade :
    (s : Setup) (agent : Text) (k : ℕ) (p : Option Json) (es : List Fields)
    → AllMade s agent k p es
    → is_range k (seqs es) ≡ true
unfolding AllMade is_range
is_range-AllMade s agent k p [] c = refl
is_range-AllMade s agent k p (e ∷ es) (x, c) =
    let h = is_range-AllMade s agent (k + 1) (some (str x.head)) es c in
    rw (seq_of-IsMade x) (ground (arith, h))

any_counter-AllMade :
    (s : Setup) (agent : Text) (k : ℕ) (p : Option Json) (es : List Fields)
    → AllMade s agent k p es
    → any_counter es ≡ false
unfolding AllMade
any_counter-AllMade s agent k p [] c = refl
any_counter-AllMade s agent k p (e ∷ es) (x, c) =
    rw x.of_counter (any_counter-AllMade s agent (k + 1) (some (str x.head)) es c)

option_eq_refl : (p : Option Text) → option_eq (as_text p) (as_text p) ≡ true
option_eq_refl none = refl
option_eq_refl (some t) = json_eq_refl_text t

prev_refl :
    {s : Setup} {agent : Text} {k : ℕ} {p : Option Json} {e : Fields}
    → IsMade s agent k p e
    → option_eq p p ≡ true
prev_refl {s = s} {agent = agent} {k = k} {p = p} {e = e} x =
    let (hr, (hp, (hc, d))) =
      compute_head-preimage s (some (str agent)) (pos k) (get (codes "action_ref") e) p none
        x.made in
    let (t, q) = prev_text (pos k) p hp in rw q (option_eq_refl t)

check_entry-IsMade :
    {s : Setup} {agent : Text} (k : ℕ) {p : Option Json} {e : Fields} (linked : Bool)
    → IsMade s agent (k + 1) p e
    → check_entry s (some (str agent)) linked k p e ≡ passed tt
unfolding compute_head check_entry
check_entry-IsMade {s = s} {agent = agent} k {p = p} {e = e} linked x =
    elim (Option-cases
      (entry_preimage (some (str agent)) (pos (k + 1)) (get (codes "action_ref") e) p none)) [
        | inl n ↦ let m = rw (n, compute_head) at x.made in absurd (ground (arith, m))
        | inr (pre, n) ↦
            let m = rw (n, compute_head) at x.made in
            let r : option_eq (get (codes "prev_head") e) p ≡ true = rw x.of_prev (prev_refl x) in
            rw
              (
                check_entry,
                seq_of-IsMade x,
                x.of_prev,
                x.of_counter,
                n,
                m,
                x.of_head,
                bytes_eq_refl x.head,
              )
              (ground (arith, r))
      ]

check_chain-AllMade :
    (s : Setup) (agent : Text) (linked : Bool) (k : ℕ) (p : Option Json) (es : List Fields)
    → AllMade s agent (k + 1) p es
    → check_chain s (some (str agent)) linked k p es ≡ passed tt
unfolding AllMade check_chain
check_chain-AllMade s agent linked k p [] c = refl
check_chain-AllMade s agent linked k p (e ∷ es) (x, c) =
    rw (check_entry-IsMade k linked x, check_chain)
      (rw x.of_head (check_chain-AllMade s agent true (k + 1) (some (str x.head)) es c))

check_order-AllMade :
    (s : Setup) (agent : Text) (p : Option Json) (es : List Fields)
    → AllMade s agent 1 p es
    → check_order 1 es ≡ passed tt
unfolding check_order
check_order-AllMade s agent p es c = let h = is_range-AllMade s agent 1 p es c in ground (arith, h)

check_agent_seq-AllMade :
    (s : Setup) (agent : Text) (p : Option Json) (es : List Fields)
    → AllMade s agent 1 p es
    → check_agent_seq 1 es ≡ passed tt
unfolding check_agent_seq
check_agent_seq-AllMade s agent p es c =
    let h = any_counter-AllMade s agent 1 p es c in ground (arith, h)

first_agent-AllMade :
    {s : Setup} {agent : Text} {k : ℕ} {p : Option Json} {e : Fields} (es : List Fields)
    → IsMade s agent k p e
    → first_agent (map obj (e ∷ es)) ≡ some (str agent)
first_agent-AllMade es x = x.of_agent

check_shape-AllMade :
    (s : Setup) (agent : Text) (k : ℕ) (p : Option Json) (e : Fields) (es : List Fields)
    → AllMade s agent k p (e ∷ es)
    → check_shape (map obj (e ∷ es)) ≡ passed (e ∷ es)
unfolding check_shape AllMade
check_shape-AllMade s agent k p e es (x, c) =
    rw (first_agent-AllMade es x) (check_entries-AllMade s agent k p (e ∷ es) (x, c))

pub last_seq-AllMade :
    (s : Setup) (agent : Text) (k : ℕ) (p : Option Json) (e : Fields) (es : List Fields)
    → AllMade s agent k p (e ∷ es)
    → last_seq (e ∷ es) ≡ pos (k + length es)
unfolding AllMade
last_seq-AllMade s agent k p e [] (x, c) = seq_of-IsMade x ∙ ap pos (ground arith)
last_seq-AllMade s agent k p e (f ∷ es) (x, c) =
    last_seq-AllMade s agent (k + 1) (some (str x.head)) f es c ∙ ap pos (omega arith)

-- The checks before the checkpoint's pass.
pub unsealed :
    (s : Setup) (agent : Text) (e : Fields) (es : List Fields) (sealed : Sealed)
    → AllMade s agent 1 none (e ∷ es)
    → verify_trail s (map obj (e ∷ es)) sealed none none no_anchor 1
      ≡ check_complete s (some (str agent)) 1 none none (e ∷ es) sealed sealed.dict
unfolding verify_trail check_anchor AllMade
unsealed s agent e es sealed (x, c) =
    rw
      (
        check_shape-AllMade s agent 1 none e es (x, c),
        first_agent-AllMade es x,
        check_order-AllMade s agent none (e ∷ es) (x, c),
        check_chain-AllMade s agent false 0 none (e ∷ es) (x, c),
        check_agent_seq-AllMade s agent none (e ∷ es) (x, c),
      )
      refl
