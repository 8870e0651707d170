-- ===== src/Market/Kept.antt =====
-- Every call on the market keeps the counts of its trails.
use argentum_core.Base.{
  ℕ, ◌≡◌, refl, sym, ◌∙◌, Bool, true, false, List, [], ◌∷◌, ◌++◌, none, some, String, arith, All,
  ltb, str_eq, str_eq_iff, ◌||◌, not, length, Bool-cases, inl, inr, Option-cases,
}
use argentum_core.Sql.{
  find_where, count_where, count-append, count-update, count_mono, find-holds, count-find_some,
}
use argentum_core.Market.{
  Recipe, Execution, MarketDb, TrailRegister, TrailExecution, recipe_is, run_is, new_recipe,
  register_trail, all_steps, max_trail_steps, min_trail_price, new_run, counted, execution_recorded,
  execute_found, execute_as,
}
use argentum_core.Market.Counts.{
  IsCounted, IsKept, of_trail, success_of, rated_of, sum_ratings, All-update, sum-append,
}

All-append :
    {R : Type 0} (P : R → Type 0) (rs : List R) (r : R) → All P rs → P r → All P (rs ++ r ∷ [])
All-append P [] r h g = (g, tt)
All-append P (t ∷ rs) r (p, h) g = (p, All-append P rs r h g)

sum_ratings-none :
    (x : String) (es : List Execution) → count_where (of_trail x) es ≡ 0 → sum_ratings x es ≡ 0
sum_ratings-none x [] h = refl
sum_ratings-none x (e ∷ es) h = ground (arith, sum_ratings-none x es)

new_recipe-IsCounted :
    (q : TrailRegister) (id : String) (now : ℕ) (runs : List Execution)
    → count_where (of_trail id) runs ≡ 0
    → IsCounted runs (new_recipe q id now)
unfolding new_recipe
new_recipe-IsCounted q id now runs h = record {
  executed = sym h;
  succeeded = omega (arith, h, count_mono (success_of id) (of_trail id) (λ e p. ground arith) runs);
  rated = omega (arith, h, count_mono (rated_of id) (of_trail id) (λ e p. ground arith) runs);
  summed = sym (sum_ratings-none id runs h);
}

registered-IsKept :
    (t : Recipe) (db : MarketDb)
    → IsKept db
    → count_where (recipe_is t.id) db.recipes ≡ 0
    → IsCounted db.runs t
    → IsKept (record db { recipes = db.recipes ++ t ∷ [] })
registered-IsKept t db h fresh c = record {
  counts = All-append (IsCounted db.runs) db.recipes t h.counts c;
  one_run = h.one_run;
  known = λ x z. h.known x (ground (arith, count-append (recipe_is x) db.recipes (t ∷ [])));
}

pub register-IsKept :
    (q : TrailRegister) (id : String) (now : ℕ) (db : MarketDb)
    → IsKept db
    → IsKept (register_trail q id now db).1
unfolding register_trail
register-IsKept q id now db h =
    elim (Bool-cases (not (ltb 0 (length q.steps)) || ltb max_trail_steps (length q.steps))) [
      | inl e ↦ rw e h
      | inr e ↦ rw e (elim (Bool-cases (ltb q.price_sats min_trail_price)) [
        | inl e ↦ rw e h
        | inr e ↦ rw e (elim (Bool-cases (not (all_steps q.steps))) [
          | inl e ↦ rw e h
          | inr e ↦ rw e (elim (Bool-cases (ltb 0 (count_where (recipe_is id) db.recipes))) [
            | inl e ↦ rw e h
            | inr e ↦
                let fresh : count_where (recipe_is id) db.recipes ≡ 0 = ground arith in
                rw e (
                  registered-IsKept (new_recipe q id now) db h (unfold new_recipe in fresh)
                    (new_recipe-IsCounted q id now db.runs (h.known id fresh)))
          ])
        ])
      ])
    ]

-- One more execution, counted in the row of its trail and in no other.
run-IsCounted :
    (runs : List Execution) (e : Execution) (t : Recipe)
    → e.rating ≡ none
    → IsCounted runs t
    → recipe_is e.trail_id t ≡ true
    → IsCounted (runs ++ e ∷ []) (counted e.succeeded t)
unfolding counted
run-IsCounted runs e t n c m =
    let same = (str_eq_iff t.id e.trail_id).0 m in
    record {
      executed = ground (
        arith,
        c.executed,
        count-append (of_trail t.id) runs (e ∷ []),
        str_eq_iff e.trail_id t.id,
        same,
      );
      succeeded = ground (
        arith,
        c.succeeded,
        count-append (success_of t.id) runs (e ∷ []),
        str_eq_iff e.trail_id t.id,
        same,
      );
      rated = ground (arith, c.rated, count-append (rated_of t.id) runs (e ∷ []), n);
      summed = ground (arith, c.summed, sum-append t.id runs e, n);
    }

other-IsCounted :
    (runs : List Execution) (e : Execution) (t : Recipe)
    → IsCounted runs t
    → recipe_is e.trail_id t ≡ false
    → IsCounted (runs ++ e ∷ []) t
other-IsCounted runs e t c m = record {
  executed = ground (
    arith,
    c.executed,
    count-append (of_trail t.id) runs (e ∷ []),
    str_eq_iff e.trail_id t.id,
    str_eq_iff t.id e.trail_id,
  );
  succeeded = ground (
    arith,
    c.succeeded,
    count-append (success_of t.id) runs (e ∷ []),
    str_eq_iff e.trail_id t.id,
    str_eq_iff t.id e.trail_id,
  );
  rated = ground (
    arith,
    c.rated,
    count-append (rated_of t.id) runs (e ∷ []),
    str_eq_iff e.trail_id t.id,
    str_eq_iff t.id e.trail_id,
  );
  summed = ground (
    arith,
    c.summed,
    sum-append t.id runs e,
    str_eq_iff e.trail_id t.id,
    str_eq_iff t.id e.trail_id,
  );
}

execution-IsKept :
    (rewarded : Bool) (q : TrailExecution) (t : Recipe) (id : String) (now : ℕ) (db : MarketDb)
    → IsKept db
    → find_where (recipe_is t.id) db.recipes ≡ some t
    → count_where (run_is id) db.runs ≡ 0
    → IsKept (execution_recorded rewarded q t id now db)
unfolding execution_recorded new_run
execution-IsKept rewarded q t id now db h found fresh =
    let e = new_run q t.id id now in
    record {
      counts =
          All-update (IsCounted db.runs) (IsCounted (db.runs ++ e ∷ [])) (recipe_is t.id)
            (counted (str_eq q.status "success")) (λ r m c. run-IsCounted db.runs e r refl c m)
            (λ r m c. other-IsCounted db.runs e r c m) db.recipes h.counts;
      one_run = λ x.
          ground
            (arith, h.one_run x, count-append (run_is x) db.runs (e ∷ []), str_eq_iff id x, fresh);
      known = λ x z.
          let z' : count_where (recipe_is x) db.recipes ≡ 0 =
            sym (
              count-update (recipe_is t.id) (recipe_is x) (counted (str_eq q.status "success"))
                (λ r. unfold counted in refl) db.recipes)
            ∙ z in
          ground (
            arith,
            h.known x z',
            count-append (of_trail x) db.runs (e ∷ []),
            str_eq_iff t.id x,
            count-find_some (recipe_is t.id) db.recipes found,
          );
    }

pub execute-IsKept :
    (rewarded : Bool) (q : TrailExecution) (trail_id id : String) (now : ℕ) (db : MarketDb)
    → IsKept db
    → IsKept (execute_as rewarded q trail_id id now db).1
unfolding execute_as execute_found
execute-IsKept rewarded q trail_id id now db h =
    elim (Bool-cases (not (str_eq q.status "success" || str_eq q.status "fail"))) [
      | inl e ↦ rw e h
      | inr e ↦ rw e (elim (Option-cases (find_where (recipe_is trail_id) db.recipes)) [
        | inl f ↦ rw (f, execute_as) h
        | inr (t, f) ↦
            let same : t.id ≡ trail_id =
              (str_eq_iff t.id trail_id).0 (find-holds (recipe_is trail_id) db.recipes f) in
            rw (f, execute_as)
              (elim (Bool-cases (ltb 0 (count_where (run_is id) db.runs))) [
                | inl taken ↦ rw taken h
                | inr free ↦
                    rw free (execution-IsKept rewarded q t id now db h (simp same f) (ground arith))
              ])
      ])
    ]
