-- ===== src/Karma/Weight.antt =====
-- argentum.py: the weight of an attestation in `attest_action`.
use argentum_core.Base.{ℕ, ◌≤◌, arith}
use argentum_core.Karma.Attest.{AttestRequest, karma_weight, attest_weight}

karma_weight-bounds : (karma : ℕ) → (50 ≤ karma_weight karma) × (karma_weight karma ≤ 200)
unfolding karma_weight
karma_weight-bounds karma = (omega arith, omega arith)

pub attest_weight-bounds :
    (q : AttestRequest) (karma : ℕ) → (25 ≤ attest_weight q karma) × (attest_weight q karma ≤ 200)
unfolding attest_weight
attest_weight-bounds q karma =
    (ground (arith, karma_weight-bounds karma), ground (arith, karma_weight-bounds karma))
