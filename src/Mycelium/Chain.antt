-- ===== src/Mycelium/Chain.antt =====
-- mycelium_trails.py: `verify_chain`, from a trail up its parents. The loop takes fuel; one more
-- than the number of rows is always enough, since it never reads a trail twice.

pub mod Correct
pub mod Reasons
mod Tests
use argentum_core.Base.{
  ℕ, zero, suc, ◌+◌, Bool, true, false, List, [], ◌∷◌, Option, none, some, String, str_eq,
  if◌then◌else◌, ◌&&◌, not, length,
}
use text.Mathlib.Text.{find?}
use argentum_core.Sql.{str_mem}
use argentum_core.Mycelium.Store.{Trail, TrailsDb}
use argentum_core.Mycelium.Trails.{get_trail_by_id}

-- `reason`
pub data Reason : Type 0 where
  cycle_detected trail_not_found missing_signature_ref delegation_ref_parent_mismatch : Reason

-- `negotiation_linkage`, None where the trail was not read.
pub data Linkage : Type 0 where
  absent present malformed : Linkage

-- `valid`, `broken_at` and `reason` of the answer; `out_of_fuel` is no answer of the program.
pub data Verdict : Type 0 where
  valid : Verdict
  broken : String → Reason → Verdict
  out_of_fuel : Verdict

pub record ChainReport : Type 0 where
  pub verdict : Verdict
  pub negotiation_linkage : Option Linkage
  pub negotiation_ref_status : Option String

-- `current_id`, where a missing or empty text ends the loop.
abbrev pub truthy : Option String → Option String
truthy none = none
truthy (some s) = if str_eq s "" then none else some s

-- `p in d`
pub contains : String → String → Bool
contains p d = elim (find? d p) [ none ↦ false | some _ ↦ true ]

-- The parent and the reference that delegates, where both are set, must agree.
pub delegation_ok : Option String → Option String → Bool
delegation_ok none d = true
delegation_ok (some p) none = true
delegation_ok (some p) (some d) = contains p d

pub link_check : Trail → Option Reason
link_check t =
    if str_eq t.signature_ref ""
    then some missing_signature_ref
    else if delegation_ok (truthy t.parent_trail_id) (truthy t.delegation_ref)
    then none
    else some delegation_ref_parent_mismatch

-- The loop, with `visited`.
pub walk : ℕ → TrailsDb → List String → Option String → Verdict
walk fuel db visited none = valid
walk zero db visited (some id) = out_of_fuel
walk (suc fuel) db visited (some id) =
    if str_mem id visited then broken id cycle_detected else elim (get_trail_by_id db id) [
      | none ↦ broken id trail_not_found
      | some t ↦ elim (link_check t) [
        | some reason ↦ broken id reason
        | none ↦ walk fuel db (id ∷ visited) (truthy t.parent_trail_id)
      ]
    ]

pub linkage : Option Trail → Option Linkage
linkage none = none
linkage (some t) = elim t.negotiation_ref [
  | none ↦ some absent
  | some r ↦ if str_eq r "" then some malformed else some present
]

pub status_of : Option Trail → Option String
status_of none = none
status_of (some t) = t.negotiation_ref_status

pub verify_chain : TrailsDb → String → ChainReport
verify_chain db id = record {
  verdict = walk (length db.trails + 1) db [] (truthy (some id));
  negotiation_linkage = linkage (get_trail_by_id db id);
  negotiation_ref_status = status_of (get_trail_by_id db id);
}
