-- ===== src/External/Replay.antt =====
-- A nonce lets one call through, whichever of the two endpoints it is for.
use argentum_core.Base.{
  ℕ, ◌+◌, ◌≤◌, ◌≡◌, ◌≢◌, refl, Bool, true, false, List, [], ◌∷◌, Option, none, some, String, arith,
  str_eq, str_eq_iff, str_eq_refl, str_ne, if◌then◌else◌, ◌&&◌, not, Bool-cases, if-keeps, inl, inr,
}
use argentum_core.Sql.{count-append}
use argentum_core.Mycelium.Store.{Account, TrailsDb}
use argentum_core.Mycelium.Trails.{
  Env, TrailRequest, Outcome, returned, integrity_error, record_trail, set_trail_action_ref,
  update_trail,
}
use argentum_core.Mycelium.Payg.{
  get_payg_account, topup_payg, has_external_nonce, record_external_nonce, nonce_is,
}
use argentum_core.Karma.Store.{World}
use argentum_core.External.{
  Delivery, DeliveryReply, credited, delivered, payg_webhook_lightning, ExternalTrail,
  ExternalReply, accepted, Setup, external_request, rewarded, external_recorded, external_account,
  external_trail,
}

-- A call to either endpoint, with the clock it reads and the identifier it draws.
pub data Call : Type 0 where
  deliver : Delivery → ℕ → Call
  external : ExternalTrail → ℕ → String → Call

pub step : Setup → Call → World → World
step s (deliver q now) w = record w { trails = (payg_webhook_lightning q now w.trails).1 }
step s (external q now id) w = (external_trail s q now id w).1

abbrev credits : DeliveryReply → Bool
credits credited = true
credits _ = false

abbrev accepts : ExternalReply → Bool
accepts (accepted t) = true
accepts _ = false

-- Whether a call under this nonce is answered as credited or accepted.
pub takes_effect : Setup → String → Call → World → Bool
takes_effect s x (deliver q now) w =
    str_eq q.payment_hash x && credits (payg_webhook_lightning q now w.trails).0
takes_effect s x (external q now id) w =
    str_eq q.action_ref x && accepts (external_trail s q now id w).0

pub effects : Setup → String → List Call → World → ℕ
effects s x [] w = 0
effects s x (c ∷ cs) w = (if takes_effect s x c w then 1 else 0) + effects s x cs (step s c w)

abbrev known : String → TrailsDb → Bool
known x db = has_external_nonce db x

record-known :
    (x ref agent : String) (now : ℕ) (db : TrailsDb)
    → known x db ≡ true
    → known x (record_external_nonce ref agent now db) ≡ true
unfolding has_external_nonce record_external_nonce
record-known x ref agent now db h = ground (
  arith,
  count-append (nonce_is x) db.nonces
      (record { action_ref = ref; agent_id = agent; created_at = now } ∷ []),
)

record-known_self :
    (x agent : String) (now : ℕ) (db : TrailsDb)
    → known x (record_external_nonce x agent now db) ≡ true
unfolding has_external_nonce record_external_nonce
record-known_self x agent now db = ground (
  arith,
  str_eq_refl x,
  count-append (nonce_is x) db.nonces
      (record { action_ref = x; agent_id = agent; created_at = now } ∷ []),
)

record_trail-nonces :
    (env : Env) (q : TrailRequest) (now : ℕ) (id : String) (db : TrailsDb)
    → (record_trail env q now id db).1.nonces ≡ db.nonces
unfolding record_trail
record_trail-nonces env q now id db = ground arith

delivered-known :
    (x : String) (q : Delivery) (now : ℕ) (o : Option Account × TrailsDb)
    → known x o.1 ≡ true
    → known x (delivered q now o).1 ≡ true
unfolding delivered
delivered-known x q now (none, db) h = h
delivered-known x q now (some a, db) h =
    if-keeps (λ d. known x d ≡ true) (str_eq q.payment_hash "") (λ e. h)
      (λ e. record-known x q.payment_hash q.api_key now db h)

deliver-known :
    (x : String) (q : Delivery) (now : ℕ) (db : TrailsDb)
    → known x db ≡ true
    → known x (payg_webhook_lightning q now db).1 ≡ true
unfolding payg_webhook_lightning
deliver-known x q now db h =
    if-keeps (λ (r : DeliveryReply × TrailsDb). known x r.1 ≡ true)
      (not (str_eq q.payment_hash "") && has_external_nonce db q.payment_hash) (λ e. h)
      (λ e.
        delivered-known x q now (topup_payg q.api_key q.trails now db)
          (unfold topup_payg has_external_nonce in h))

delivered-effect :
    (q : Delivery) (now : ℕ) (o : Option Account × TrailsDb)
    → str_eq q.payment_hash "" ≡ false
    → credits (delivered q now o).0 ≡ true
    → known q.payment_hash (delivered q now o).1 ≡ true
unfolding delivered
delivered-effect q now (none, db) ne h = cc
delivered-effect q now (some a, db) ne h = rw ne (record-known_self q.payment_hash q.api_key now db)

deliver-effect :
    (q : Delivery) (now : ℕ) (db : TrailsDb)
    → str_eq q.payment_hash "" ≡ false
    → credits (payg_webhook_lightning q now db).0 ≡ true
    → (known q.payment_hash db ≡ false)
      × (known q.payment_hash (payg_webhook_lightning q now db).1 ≡ true)
unfolding payg_webhook_lightning
deliver-effect q now db ne h =
    (ground arith, ground (arith, delivered-effect q now (topup_payg q.api_key q.trails now db) ne))

recorded-known :
    (s : Setup) (x : String) (q : ExternalTrail) (a : Account) (now : ℕ) (w : World)
    (o : Outcome (Option String) × TrailsDb)
    → known x o.1 ≡ true
    → known x (external_recorded s q a now w o).1.trails ≡ true
unfolding external_recorded rewarded set_trail_action_ref update_trail has_external_nonce
recorded-known s x q a now w (integrity_error, db) h = h
recorded-known s x q a now w (returned none, db) h = h
recorded-known s x q a now w (returned (some id), db) h = h

trailed-known :
    (x : String) (env : Env) (q : TrailRequest) (now : ℕ) (id : String) (db : TrailsDb)
    → known x db ≡ true
    → known x (record_trail env q now id db).1 ≡ true
unfolding has_external_nonce
trailed-known x env q now id db h = rw (record_trail-nonces env q now id db) h

account-known :
    (s : Setup) (x : String) (q : ExternalTrail) (now : ℕ) (id : String) (w : World)
    (o : Option Account)
    → known x w.trails ≡ true
    → known x (external_account s q now id w o).1.trails ≡ true
unfolding external_account
account-known s x q now id w none h = h
account-known s x q now id w (some a) h =
    if-keeps (λ (r : ExternalReply × World). known x r.1.trails ≡ true)
      (has_external_nonce w.trails q.action_ref) (λ e. h)
      (λ e. recorded-known s x q a now w _ (
        trailed-known x s.env (external_request s q a) now id _
          (record-known x q.action_ref a.agent_id now w.trails h)))

-- A call that is accepted was not known before and is afterwards.
account-effect :
    (s : Setup) (q : ExternalTrail) (now : ℕ) (id : String) (w : World) (o : Option Account)
    → accepts (external_account s q now id w o).0 ≡ true
    → (known q.action_ref w.trails ≡ false)
      × (known q.action_ref (external_account s q now id w o).1.trails ≡ true)
unfolding external_account
account-effect s q now id w none h = cc
account-effect s q now id w (some a) h =
    elim (Bool-cases (has_external_nonce w.trails q.action_ref)) [
      | inl e ↦ absurd (ground arith)
      | inr e ↦ (
        e,
        rw e (
            recorded-known s q.action_ref q a now w _ (
              trailed-known q.action_ref s.env (external_request s q a) now id _
                (record-known_self q.action_ref a.agent_id now w.trails))),
      )
    ]

external-known :
    (s : Setup) (x : String) (q : ExternalTrail) (now : ℕ) (id : String) (w : World)
    → known x w.trails ≡ true
    → known x (external_trail s q now id w).1.trails ≡ true
unfolding external_trail
external-known s x q now id w h =
    ground (arith, account-known s x q now id w (get_payg_account w.trails q.api_key) h)

external-effect :
    (s : Setup) (q : ExternalTrail) (now : ℕ) (id : String) (w : World)
    → accepts (external_trail s q now id w).0 ≡ true
    → (known q.action_ref w.trails ≡ false)
      × (known q.action_ref (external_trail s q now id w).1.trails ≡ true)
unfolding external_trail
external-effect s q now id w h =
    ground (arith, account-effect s q now id w (get_payg_account w.trails q.api_key))

step-known :
    (s : Setup) (x : String) (c : Call) (w : World)
    → known x w.trails ≡ true
    → known x (step s c w).trails ≡ true
unfolding step
step-known s x (deliver q now) w h = deliver-known x q now w.trails h
step-known s x (external q now id) w h = external-known s x q now id w h

step-effect :
    (s : Setup) (x : String) (c : Call) (w : World)
    → str_eq x "" ≡ false
    → takes_effect s x c w ≡ true
    → (known x w.trails ≡ false) × (known x (step s c w).trails ≡ true)
unfolding step takes_effect
step-effect s x (deliver q now) w ne h =
    let same : q.payment_hash ≡ x = (str_eq_iff q.payment_hash x).0 (ground arith) in
    let g : credits (payg_webhook_lightning q now w.trails).0 ≡ true = ground arith in
    let r = deliver-effect q now w.trails (simp same ne) g in (rw (← same) r.0, rw (← same) r.1)
step-effect s x (external q now id) w ne h =
    let same : q.action_ref ≡ x = (str_eq_iff q.action_ref x).0 (ground arith) in
    let g : accepts (external_trail s q now id w).0 ≡ true = ground arith in
    let r = external-effect s q now id w g in (rw (← same) r.0, rw (← same) r.1)

no_effects :
    (s : Setup) (x : String) (cs : List Call) (w : World)
    → str_eq x "" ≡ false
    → known x w.trails ≡ true
    → effects s x cs w ≡ 0
unfolding effects
no_effects s x [] w ne h = refl
no_effects s x (c ∷ cs) w ne h =
    ground (arith, step-effect s x c w ne, no_effects s x cs (step s c w) ne (step-known s x c w h))

effects-le-one :
    (s : Setup) (x : String) (cs : List Call) (w : World)
    → str_eq x "" ≡ false
    → effects s x cs w ≤ 1
unfolding effects
effects-le-one s x [] w ne = omega arith
effects-le-one s x (c ∷ cs) w ne = elim (Bool-cases (takes_effect s x c w)) [
  | inl e ↦
      let none_left = no_effects s x cs (step s c w) ne (step-effect s x c w ne e).1 in
      ground (arith, none_left)
  | inr e ↦ ground (arith, effects-le-one s x cs (step s c w) ne)
]

-- Over any sequence of calls of the two endpoints, from any store, at most one call under the same
-- nonce that is not empty is answered as credited or accepted; and where the store has the nonce, none is.
pub effects_once :
    (s : Setup) (x : String) (cs : List Call) (w : World)
    → x ≢ ""
    → (effects s x cs w ≤ 1) × (has_external_nonce w.trails x ≡ true → effects s x cs w ≡ 0)
effects_once s x cs w ne =
    (effects-le-one s x cs w (str_ne x "" ne), no_effects s x cs w (str_ne x "" ne))
