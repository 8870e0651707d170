-- ===== src/TrailHead/Verify.antt =====
-- plugins/agt_evidence_anchor/trail_head.py: `verify_trail`. Its checks are in its order, and the first that
-- fails decides; `raised` is an exception. Of the answer, the fields that repeat the input are left out.
use argentum_core.Base.{
  ℕ, ◌+◌, ◌-◌, Bool, true, false, List, [], ◌∷◌, Option, none, some, ltb, ◌==◌, if◌then◌else◌, ◌&&◌,
  ◌||◌, not,
}
use argentum_core.Bytes.{bytes_eq}
use argentum_core.Json.{Text, codes, ℤ, pos, negsuc, Json, Fields, int, str, obj}
use argentum_core.Json.Equal.{option_eq}
use argentum_core.Merkle.{verify_inclusion}
use argentum_core.TrailHead.{
  Setup, lookup, get, is_hex64, sha256_jcs, entry_preimage, checkpoint_v, checkpoint_digest,
}

pub data Verdict : Type 0 where
  malformed broken agent_gap anchor_unproven anchor_mismatch continuity_only checkpoint_unproven
        stale_checkpoint truncated checkpoint_mismatch complete complete_unsealed_tail
        window_complete window_complete_unsealed_tail :
      Verdict

pub data Completeness : Type 0 where
  proven proven_through_checkpoint proven_from_seq proven_from_seq_through_checkpoint not_evaluated
        failed :
      Completeness

pub data Reason : Type 0 where
  empty_or_not_a_list entry_shape agent_mixed seq_order seq_gap entry_preimage_reason head_mismatch
        link_mismatch anchor_shape anchor_other_agent anchor_not_in_root anchor_not_adjacent
        prev_head_differs_from_anchor agent_seq_partial agent_seq_not_contiguous no_checkpoint
        checkpoint_shape checkpoint_other_agent not_in_root checkpoint_too_old
        checkpoint_before_window log_shorter_than_checkpoint head_differs_from_checkpoint :
      Reason

pub record Report : Type 0 where
  pub verdict : Verdict
  pub completeness : Completeness
  pub at_seq : Option ℤ
  pub reason : Option Reason

pub data Outcome : Type 0 where
  answer : Report → Outcome
  raised : Outcome

-- A check that passes gives what the later ones need.
pub data Check (A : Type 0) : Type 0 where
  passed : A → Check A
  stopped : Outcome → Check A

abbrev pub then_answer : {A : Type 0} → Check A → (A → Outcome) → Outcome
then_answer (passed a) f = f a
then_answer (stopped o) f = o

abbrev pub fails : {A : Type 0} → Verdict → Option ℤ → Reason → Check A
fails v at r =
    stopped (answer (record { verdict = v; completeness = failed; at_seq = at; reason = some r }))

abbrev pub as_int : Option Json → Option ℤ
as_int (some (int n)) = some n
as_int _ = none

-- The number of a seq that was checked.
abbrev pub seq_of : Fields → ℤ
seq_of e = elim (as_int (lookup (codes "seq") e)) [ none ↦ pos 0 | some n ↦ n ]

abbrev pub text_at : Option Json → Option Text
text_at (some (str t)) = some t
text_at _ = none

abbrev pub agent_of : Fields → Option Json
agent_of e = get (codes "agent_id") e

abbrev pub first_agent : List Json → Option Json
first_agent (obj e ∷ es) = agent_of e
first_agent _ = none

unfoldable pub has_shape : Fields → Bool
has_shape e =
    is_hex64 (get (codes "head") e)
    && (is_hex64 (get (codes "action_ref") e)
        && (elim (as_int (get (codes "seq") e)) [ none ↦ false | some n ↦ true ]))

abbrev pub push_entry : Fields → Check (List Fields) → Check (List Fields)
push_entry e (passed es) = passed (e ∷ es)
push_entry e (stopped o) = stopped o

-- 1. shape
unfoldable pub check_entries : Option Json → List Json → Check (List Fields)
check_entries agent [] = passed []
check_entries agent (obj e ∷ es) =
    if not (has_shape e)
    then fails malformed none entry_shape
    else if not (option_eq (agent_of e) agent)
    then fails malformed (some (seq_of e)) agent_mixed
    else push_entry e (check_entries agent es)
check_entries agent (j ∷ es) = fails malformed none entry_shape

unfoldable pub check_shape : List Json → Check (List Fields)
check_shape [] = fails malformed none empty_or_not_a_list
check_shape (e ∷ es) = check_entries (first_agent (e ∷ es)) (e ∷ es)

abbrev pub int_lt : ℤ → ℤ → Bool
int_lt (pos m) (pos n) = ltb m n
int_lt (pos m) (negsuc n) = false
int_lt (negsuc m) (pos n) = true
int_lt (negsuc m) (negsuc n) = ltb n m

abbrev pub is_seq : ℤ → ℕ → Bool
is_seq (pos m) n = m == n
is_seq (negsuc m) n = false

unfoldable pub insert_int : ℤ → List ℤ → List ℤ
insert_int n [] = n ∷ []
insert_int n (m ∷ ms) = if int_lt m n then m ∷ insert_int n ms else n ∷ m ∷ ms

unfoldable pub sort_ints : List ℤ → List ℤ
sort_ints [] = []
sort_ints (n ∷ ns) = insert_int n (sort_ints ns)

abbrev pub seqs : List Fields → List ℤ
seqs [] = []
seqs (e ∷ es) = seq_of e ∷ seqs es

-- `ns == list(range(k, k + len(ns)))`
unfoldable pub is_range : ℕ → List ℤ → Bool
is_range k [] = true
is_range k (n ∷ ns) = is_seq n k && is_range (k + 1) ns

unfoldable pub first_off : ℕ → List ℤ → Option ℤ
first_off k [] = none
first_off k (n ∷ ns) = if is_seq n k then first_off (k + 1) ns else some n

-- 2. continuity, the reordering first; where the seqs sorted are the range, they are in order
-- exactly where they are the range themselves.
unfoldable pub check_order : ℕ → List Fields → Check (Unit {0})
check_order from es =
    if is_range from (sort_ints (seqs es)) && not (is_range from (seqs es))
    then fails broken (first_off from (seqs es)) seq_order
    else passed tt

abbrev pub agree : Text → Option Json → Bool
agree t j = elim (text_at j) [ none ↦ false | some h ↦ bytes_eq t h ]

-- One entry against the seq and the head before it; `linked` where that head is known.
unfoldable pub check_entry :
    Setup → Option Json → Bool → ℕ → Option Json → Fields → Check (Unit {0})
check_entry s agent linked prev_seq prev_head e =
    if not (is_seq (seq_of e) (prev_seq + 1))
    then fails broken (some (seq_of e)) seq_gap
    else elim (entry_preimage agent (seq_of e) (get (codes "action_ref") e)
        (get (codes "prev_head") e) (get (codes "agent_seq") e)) [
          | none ↦ fails malformed (some (seq_of e)) entry_preimage_reason
          | some pre ↦ elim (sha256_jcs s (obj pre)) [
            | none ↦ stopped raised
            | some head ↦
                if not (agree head (get (codes "head") e))
                then fails broken (some (seq_of e)) head_mismatch
                else if linked && not (option_eq (get (codes "prev_head") e) prev_head)
                then fails broken (some (seq_of e)) link_mismatch
                else passed tt
          ]
        ]

unfoldable pub check_chain :
    Setup → Option Json → Bool → ℕ → Option Json → List Fields → Check (Unit {0})
check_chain s agent linked prev_seq prev_head [] = passed tt
check_chain s agent linked prev_seq prev_head (e ∷ es) =
    elim (check_entry s agent linked prev_seq prev_head e) [
      | stopped o ↦ stopped o
      | passed u ↦ check_chain s agent true (prev_seq + 1) (get (codes "head") e) es
    ]

-- A checkpoint with its proof and the root of its period, where they are given.
pub record Sealed : Type 0 where
  pub dict : Option Fields
  pub proof : Option (List Text)
  pub root : Option Text

-- Whether the digest of a checkpoint is in the root; `none` where it cannot be computed.
unfoldable pub in_root : Setup → Fields → Option (List Text) → Option Text → Option Bool
in_root s c none root = some false
in_root s c (some proof) none = some false
in_root s c (some proof) (some root) = elim (checkpoint_digest s c) [
  | none ↦ none
  | some d ↦ some (verify_inclusion s.sha d proof root)
]

abbrev pub is_v : Fields → Bool
is_v c = option_eq (get (codes "v") c) (some (str checkpoint_v))

abbrev pub first_entry : List Fields → Option Fields
first_entry [] = none
first_entry (e ∷ es) = some e

abbrev pub prev_of : Option Fields → Option Json
prev_of none = none
prev_of (some e) = lookup (codes "prev_head") e

abbrev pub is_some_int : Option ℤ → Bool
is_some_int none = false
is_some_int (some n) = true

abbrev pub seq_is : Option ℤ → ℕ → Bool
seq_is none n = false
seq_is (some m) n = is_seq m n

unfoldable pub check_anchor_link : ℕ → List Fields → Fields → Check (Unit {0})
check_anchor_link from es a =
    if from == 1 || not (seq_is (as_int (get (codes "seq") a)) (from - 1))
    then fails anchor_unproven (some (pos from)) anchor_not_adjacent
    else if not (option_eq (prev_of (first_entry es)) (lookup (codes "head") a))
    then fails anchor_mismatch (some (pos from)) prev_head_differs_from_anchor
    else passed tt

-- 2e. window start
unfoldable pub check_anchor :
    Setup → Option Json → ℕ → List Fields → Sealed → Option Fields → Check (Unit {0})
check_anchor s agent from es anchor none = passed tt
check_anchor s agent from es anchor (some a) =
    if not
      (is_v a && (is_hex64 (get (codes "head") a) && is_some_int (as_int (get (codes "seq") a))))
    then fails anchor_unproven none anchor_shape
    else if not (option_eq (agent_of a) agent)
    then fails anchor_unproven none anchor_other_agent
    else elim (in_root s a anchor.proof anchor.root) [
      | none ↦ stopped raised
      | some false ↦ fails anchor_unproven none anchor_not_in_root
      | some true ↦ check_anchor_link from es a
    ]
