-- ===== src/Karma/Wisdom.antt =====
-- argentum.py: `upsert_wisdom`, and what a slash takes from a row of `wisdom`.
use argentum_core.Base.{
  ℕ, ◌+◌, ◌-◌, ◌*◌, ◌/◌, Bool, List, [], ◌∷◌, ◌++◌, Option, none, some, String, ltb, str_eq,
  if◌then◌else◌,
}
use argentum_core.Sql.{find_where, count_where, update_where}
use argentum_core.Karma.Store.{Wisdom}

abbrev pub entity_is : String → Wisdom → Bool
entity_is id w = str_eq w.entity_id id

-- `COALESCE(a, b)`
abbrev pub coalesce {ℓ} : {A : Type ℓ} → Option A → A → A
coalesce none b = b
coalesce (some a) b = a

abbrev pub or_else {ℓ} : {A : Type ℓ} → Option A → Option A → Option A
or_else none b = b
or_else (some a) b = some a

-- The karma that an update starts from, in tenths.
abbrev pub real_karma : Wisdom → ℕ
real_karma w = coalesce w.total_karma_real (w.total_karma * 10)

-- The arguments of `upsert_wisdom`; `karma_delta` in tenths.
pub record Award : Type 0 where
  pub entity_id : String
  pub entity_name : String
  pub entity_type : String
  pub karma_delta : ℕ
  pub action : Bool
  pub attestation : Bool
  pub last_action : Option ℕ

abbrev pub one_if : Bool → ℕ
one_if b = if b then 1 else 0

unfoldable pub awarded : Award → Wisdom → Wisdom
awarded a w = record w {
  total_karma = (real_karma w + a.karma_delta) / 10;
  total_karma_real = some (real_karma w + a.karma_delta);
  verified_actions = w.verified_actions + one_if a.action;
  attestations_given = w.attestations_given + one_if a.attestation;
  last_action = or_else a.last_action w.last_action;
  entity_name = a.entity_name;
}

unfoldable pub first_award : Award → Wisdom
first_award a = record {
  entity_id = a.entity_id;
  entity_name = a.entity_name;
  entity_type = a.entity_type;
  total_karma = a.karma_delta / 10;
  total_karma_real = some a.karma_delta;
  verified_actions = one_if a.action;
  attestations_given = one_if a.attestation;
  last_action = a.last_action;
}

unfoldable pub upsert_wisdom : Award → List Wisdom → List Wisdom
upsert_wisdom a ws =
    if ltb 0 (count_where (entity_is a.entity_id) ws)
    then update_where (entity_is a.entity_id) (awarded a) ws
    else ws ++ first_award a ∷ []

-- `total_karma` of an entity, 0 where it has no row.
unfoldable pub karma_of : String → List Wisdom → ℕ
karma_of id ws = elim (find_where (entity_is id) ws) [ none ↦ 0 | some w ↦ w.total_karma ]

-- `total_karma = MAX(0, total_karma - n)`: subtraction on ℕ stops at 0.
unfoldable pub penalised : ℕ → Wisdom → Wisdom
penalised n w = record w { total_karma = w.total_karma - n }

-- The poster also loses a verified action.
unfoldable pub slashed_poster : ℕ → Wisdom → Wisdom
slashed_poster n w = record w {
  total_karma = w.total_karma - n;
  verified_actions = w.verified_actions - 1;
}
