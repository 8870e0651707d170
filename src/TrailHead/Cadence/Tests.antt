-- ===== src/TrailHead/Cadence/Tests.antt =====
-- verify_checkpoint_cadence on three checkpoints.
use argentum_core.Base.{ℕ, ◌*◌, ◌≡◌, ◌⊎◌, refl, List, [], ◌∷◌, some, length, arith}
use argentum_core.Bytes.Toy.{toy}
use argentum_core.Json.{Text, codes, Json, pos, str, obj, field, no_fields}
use argentum_core.Json.Equal.{json_eq}
use argentum_core.TrailHead.{Setup, parse_ts, drop_z}
use argentum_core.TrailHead.Cadence.{
  verify_checkpoint_cadence, ok_cadence, period_exceeds_declared_maximum, all_hashable, one_agent,
  all_of, stamps, stamp_of,
}
use argentum_core.TrailHead.Cadence.Gaps.{breach_or_ok, IsGap}

-- A time of n characters is n seconds.
abbrev world : Setup
world = record { sha = toy; iso = λ t. some (length t * 1000000) }

abbrev ends : Text → Json
ends t =
    obj (field (codes "agent_id") (str (codes "a1")) (field (codes "period_end") (str t) no_fields))

abbrev stream : List Json
stream = ends (codes "......Z") ∷ ends (codes "Z") ∷ ends (codes "..Z") ∷ []

breach_or_ok_example :
    ((verify_checkpoint_cadence world stream (pos 3) ≡ ok_cadence)
      × ((a b : ℕ) → IsGap 3000000 a b (6000000 ∷ 0 ∷ 2000000 ∷ []) → ⊥))
    ⊎ ((a : ℕ) × (b : ℕ) × (verify_checkpoint_cadence world stream (pos 3)
          ≡ period_exceeds_declared_maximum a b)
        × IsGap 3000000 a b (6000000 ∷ 0 ∷ 2000000 ∷ []))
unfolding all_hashable one_agent all_of stamps stamp_of parse_ts drop_z json_eq
breach_or_ok_example =
    breach_or_ok world stream 3 (6000000 ∷ 0 ∷ 2000000 ∷ []) (omega arith) (omega arith) refl refl
      refl
