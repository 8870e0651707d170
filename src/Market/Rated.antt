-- ===== src/Market/Rated.antt =====
-- Ratings and executions of the market, over any history of calls.
use argentum_core.Base.{
  ℕ, ◌≤◌, ◌≡◌, refl, sym, ◌∙◌, true, false, List, [], ◌∷◌, Option, none, some, String, arith, leb,
  str_eq_iff, ◌&&◌, not, Bool-cases, inl, inr, Option-cases,
}
use argentum_core.Sql.{find_where, count_where, update_where, count-update}
use argentum_core.Market.{
  Recipe, Execution, MarketDb, TrailRegister, TrailExecution, recipe_is, run_is, run_of,
  register_trail, record_trail_execution, execute_trail, is_rated, with_rating, rated_once,
  is_author, rate_found, rate_trail_execution,
}
use argentum_core.Market.Counts.{
  IsCounted, IsKept, of_trail, success_of, All-update, rating-count, rating-sum,
}
use argentum_core.Market.Kept.{register-IsKept, execute-IsKept}

-- The counts that a rating leaves alone.
rating-runs :
    (x id : String) (r : ℕ) (runs : List Execution)
    → (count_where (of_trail x) (update_where (run_is id) (with_rating r) runs)
        ≡ count_where (of_trail x) runs)
      × (count_where (success_of x) (update_where (run_is id) (with_rating r) runs)
          ≡ count_where (success_of x) runs)
unfolding with_rating
rating-runs x id r runs = (
  count-update (run_is id) (of_trail x) (with_rating r) (λ e. refl) runs,
  count-update (run_is id) (success_of x) (with_rating r) (λ e. refl) runs,
)

module _ (tid id : String) (r : ℕ) (runs : List Execution) {e : Execution}
    (u : count_where (run_is id) runs ≤ 1) (f : find_where (run_of id tid) runs ≡ some e)
    (n : e.rating ≡ none) where
  -- A rating is counted in the row of its trail, and in no other.
  rated-IsCounted :
      (t : Recipe)
      → recipe_is tid t ≡ true
      → IsCounted runs t
      → IsCounted (update_where (run_is id) (with_rating r) runs) (rated_once r t)
  unfolding rated_once
  rated-IsCounted t m c =
      let same = (str_eq_iff t.id tid).0 m in
      record {
        executed = c.executed ∙ sym (rating-runs t.id id r runs).0;
        succeeded = c.succeeded ∙ sym (rating-runs t.id id r runs).1;
        rated =
            ground
              (arith, c.rated, rating-count t.id id tid r runs u f n, str_eq_iff tid t.id, same);
        summed =
            ground
              (arith, c.summed, rating-sum t.id id tid r runs u f n, str_eq_iff tid t.id, same);
      }

  unrated-IsCounted :
      (t : Recipe)
      → recipe_is tid t ≡ false
      → IsCounted runs t
      → IsCounted (update_where (run_is id) (with_rating r) runs) t
  unrated-IsCounted t m c = record {
    executed = c.executed ∙ sym (rating-runs t.id id r runs).0;
    succeeded = c.succeeded ∙ sym (rating-runs t.id id r runs).1;
    rated = ground (
      arith,
      c.rated,
      rating-count t.id id tid r runs u f n,
      str_eq_iff tid t.id,
      str_eq_iff t.id tid,
    );
    summed = ground (
      arith,
      c.summed,
      rating-sum t.id id tid r runs u f n,
      str_eq_iff tid t.id,
      str_eq_iff t.id tid,
    );
  }

rated-IsKept :
    (tid id : String) (r : ℕ) (db : MarketDb) {e : Execution}
    → IsKept db
    → find_where (run_of id tid) db.runs ≡ some e
    → e.rating ≡ none
    → IsKept (record db {
      runs = update_where (run_is id) (with_rating r) db.runs;
      recipes = update_where (recipe_is tid) (rated_once r) db.recipes;
    })
rated-IsKept tid id r db h f n = record {
  counts =
      All-update (IsCounted db.runs) (IsCounted (update_where (run_is id) (with_rating r) db.runs))
        (recipe_is tid) (rated_once r) (rated-IsCounted tid id r db.runs (h.one_run id) f n)
        (unrated-IsCounted tid id r db.runs (h.one_run id) f n) db.recipes h.counts;
  one_run = λ x.
      rw
        (count-update (run_is id) (run_is x) (with_rating r) (λ e. unfold with_rating in refl)
          db.runs)
        (h.one_run x);
  known = λ x z.
      (rating-runs x id r db.runs).0
      ∙ h.known x (
          sym (
            count-update (recipe_is tid) (recipe_is x) (rated_once r)
              (λ t. unfold rated_once in refl) db.recipes)
          ∙ z);
}

unrated-none : (o : Option ℕ) → is_rated o ≡ false → o ≡ none
unrated-none none e = refl
unrated-none (some r) e = cc

rate-IsKept :
    (tid id : String) (r : ℕ) (db : MarketDb)
    → IsKept db
    → IsKept (rate_trail_execution tid id r db).1
unfolding rate_trail_execution rate_found
rate-IsKept tid id r db h = elim (Bool-cases (not (leb 1 r && leb r 5))) [
  | inl e ↦ rw e h
  | inr e ↦ rw e (elim (Option-cases (find_where (run_of id tid) db.runs)) [
    | inl f ↦ rw (f, rate_trail_execution) h
    | inr (run, f) ↦
        rw (f, rate_trail_execution)
          (elim (Bool-cases (is_rated run.rating)) [
            | inl g ↦ rw g h
            | inr g ↦
                rw g
                  (elim (Bool-cases
                    (is_author (find_where (recipe_is tid) db.recipes) run.executor_id)) [
                      | inl o ↦ rw o h
                      | inr o ↦ rw o (rated-IsKept tid id r db h f (unrated-none run.rating g))
                    ])
          ])
  ])
]

-- A call with the clock it reads and the identifier it draws.
pub data Call : Type 0 where
  register : TrailRegister → String → ℕ → Call
  execute : TrailExecution → String → String → ℕ → Call
  execute_tool : TrailExecution → String → String → ℕ → Call
  rate : String → String → ℕ → Call

pub step : Call → MarketDb → MarketDb
step (register q id now) db = (register_trail q id now db).1
step (execute q trail_id id now) db = (record_trail_execution q trail_id id now db).1
step (execute_tool q trail_id id now) db = (execute_trail q trail_id id now db).1
step (rate trail_id id r) db = (rate_trail_execution trail_id id r db).1

step-IsKept : (c : Call) (db : MarketDb) → IsKept db → IsKept (step c db)
unfolding step record_trail_execution execute_trail
step-IsKept (register q id now) db h = register-IsKept q id now db h
step-IsKept (execute q trail_id id now) db h = execute-IsKept _ q trail_id id now db h
step-IsKept (execute_tool q trail_id id now) db h = execute-IsKept _ q trail_id id now db h
step-IsKept (rate trail_id id r) db h = rate-IsKept trail_id id r db h

pub run : List Call → MarketDb → MarketDb
run [] db = db
run (c ∷ cs) db = run cs (step c db)

-- After any sequence of calls on the market, from a store for which this holds, the counts in the
-- row of each trail are the number of its executions, of those that succeeded, of those that are
-- rated and the sum of their ratings; no two executions share an identifier, and none is of a trail
-- that is not there.
pub always-IsKept : (cs : List Call) (db : MarketDb) → IsKept db → IsKept (run cs db)
unfolding run
always-IsKept [] db h = h
always-IsKept (c ∷ cs) db h = always-IsKept cs (step c db) (step-IsKept c db h)
