-- ===== src/Mycelium/Trails/Limits.antt =====
-- The daily limit of `record_trail`, over any history of calls with any clocks.
use argentum_core.Base.{
  ℕ, ◌/◌, ◌≤◌, ◌<◌, ◌≡◌, Bool, true, false, List, [], ◌∷◌, ◌++◌, String, arith, leb, ◌==◌, str_eq,
  str_eq_iff, ◌&&◌, All, Bool-cases, inl, inr,
}
use argentum_core.Sql.{count_where, count-append, count_mono}
use argentum_core.Mycelium.Store.{Trail, TrailsDb}
use argentum_core.Mycelium.Trails.{
  Env, TrailRequest, record_trail, start_of_day_ts, count_trails_today, is_limited, over_limit,
  new_trail,
}

abbrev on_day : String → ℕ → Trail → Bool
on_day agent day t = str_eq t.agent_id agent && t.timestamp / 86400 == day

-- The trails of an agent on a day, counted from the epoch.
unfoldable pub day_count : TrailsDb → String → ℕ → ℕ
day_count db agent day = count_where (on_day agent day) db.trails

abbrev today_test : String → ℕ → Trail → Bool
today_test agent now t = str_eq t.agent_id agent && leb (start_of_day_ts now) t.timestamp

on_day-today :
    (agent : String) (now : ℕ) (t : Trail)
    → on_day agent (now / 86400) t ≡ true
    → today_test agent now t ≡ true
unfolding start_of_day_ts
on_day-today agent now t h = ground arith

day_count-le-today :
    (db : TrailsDb) (agent : String) (now : ℕ)
    → day_count db agent (now / 86400) ≤ count_trails_today db agent now
unfolding day_count count_trails_today
day_count-le-today db agent now =
    count_mono (on_day agent (now / 86400)) (today_test agent now) (on_day-today agent now)
      db.trails

-- A call by its request, its clock and the identifier it draws.
abbrev pub Call : Type 0
Call = TrailRequest × ℕ × String

pub record_all : Env → List Call → TrailsDb → TrailsDb
record_all env [] db = db
record_all env ((q, now, id) ∷ calls) db = record_all env calls (record_trail env q now id db).1

-- A call on behalf of `agent` is one that the limit `cap` applies to; calls of others are free.
abbrev pub IsCapped : Env → String → ℕ → Call → Type 0
IsCapped env agent cap c =
    c.0.agent_id ≡ agent → (is_limited env c.0 ≡ true) × (c.0.rate_limit_cap ≤ cap)

-- A call that passes the limits finds room for one more trail today.
room_left :
    (env : Env) (db : TrailsDb) (q : TrailRequest) (now : ℕ)
    → over_limit env db q now ≡ false
    → is_limited env q ≡ true
    → count_trails_today db q.agent_id now < q.rate_limit_cap
unfolding over_limit
room_left env db q now h l = ground arith

add_trail-day_count :
    (env : Env) (agent : String) (cap day : ℕ) (q : TrailRequest) (now : ℕ) (id : String)
    (db : TrailsDb)
    → IsCapped env agent cap (q, now, id)
    → over_limit env db q now ≡ false
    → day_count db agent day ≤ cap
    → count_where (on_day agent day) (db.trails ++ new_trail env q now id ∷ []) ≤ cap
unfolding day_count
add_trail-day_count env agent cap day q now id db h o b =
    elim (Bool-cases (on_day agent day (new_trail env q now id))) [
      | inl same ↦
          let mine : q.agent_id ≡ agent =
            (str_eq_iff q.agent_id agent).0 (unfold new_trail in ground arith) in
          let today : now / 86400 ≡ day = unfold new_trail in ground arith in
          let room : count_trails_today db q.agent_id now < q.rate_limit_cap =
            room_left env db q now o (h mine).0 in
          let below : day_count db agent day ≤ count_trails_today db q.agent_id now =
            rw (mine, ← today) (day_count-le-today db agent now) in
          rw (count-append (on_day agent day) db.trails (new_trail env q now id ∷ []), same)
            (omega (arith, (h mine).1))
      | inr other ↦
          rw (count-append (on_day agent day) db.trails (new_trail env q now id ∷ []), other)
            (omega arith)
    ]

record_trail-day_count :
    (env : Env) (agent : String) (cap day : ℕ) (q : TrailRequest) (now : ℕ) (id : String)
    (db : TrailsDb)
    → IsCapped env agent cap (q, now, id)
    → day_count db agent day ≤ cap
    → day_count (record_trail env q now id db).1 agent day ≤ cap
unfolding record_trail day_count
record_trail-day_count env agent cap day q now id db h b =
    ground (arith, add_trail-day_count env agent cap day q now id db h)

-- From any store in which an agent has at most `cap` trails on a day, whatever calls follow and
-- whatever their clocks read, the agent still has at most `cap` trails on that day, if the limits
-- apply to each call on its behalf with a cap of at most `cap`.
pub daily_limit :
    (env : Env) (agent : String) (cap day : ℕ) (calls : List Call) (db : TrailsDb)
    → All (IsCapped env agent cap) calls
    → day_count db agent day ≤ cap
    → day_count (record_all env calls db) agent day ≤ cap
unfolding record_all
daily_limit env agent cap day [] db h b = b
daily_limit env agent cap day ((q, now, id) ∷ calls) db h b =
    daily_limit env agent cap day calls (record_trail env q now id db).1 h.1
      (record_trail-day_count env agent cap day q now id db h.0 b)
