-- ===== src/Market/Counts.antt =====
-- The counts that a trail keeps of its executions and ratings agree with the rows of executions.
use argentum_core.Base.{
  ℕ, ◌+◌, ◌≤◌, ◌<◌, ◌≡◌, refl, ap, ◌∙◌, Bool, true, false, List, [], ◌∷◌, ◌++◌, none, some, String,
  arith, All, str_eq, str_eq_iff, if◌then◌else◌, ◌&&◌, Bool-cases, if-keeps, inl, inr,
}
use argentum_core.Sql.{find_where, count_where, update_where}
use argentum_core.Karma.Wisdom.{coalesce}
use argentum_core.Market.{
  Recipe, Execution, MarketDb, recipe_is, run_is, run_of, is_rated, with_rating,
}

abbrev pub of_trail : String → Execution → Bool
of_trail id e = str_eq e.trail_id id

abbrev pub success_of : String → Execution → Bool
success_of id e = str_eq e.trail_id id && e.succeeded

abbrev pub rated_of : String → Execution → Bool
rated_of id e = str_eq e.trail_id id && is_rated e.rating

-- The sum of the ratings of a trail's executions.
abbrev pub sum_ratings : String → List Execution → ℕ
sum_ratings id [] = 0
sum_ratings id (e ∷ es) =
    (if str_eq e.trail_id id then coalesce e.rating 0 else 0) + sum_ratings id es

-- The counts in the row of a trail are those of its executions.
pub record IsCounted (runs : List Execution) (t : Recipe) : Type 0 where
  pub executed : t.executions ≡ count_where (of_trail t.id) runs
  pub succeeded : t.success_count ≡ count_where (success_of t.id) runs
  pub rated : t.rating_count ≡ count_where (rated_of t.id) runs
  pub summed : t.rating_sum ≡ sum_ratings t.id runs

pub record IsKept (db : MarketDb) : Type 0 where
  pub counts : All (IsCounted db.runs) db.recipes
  pub one_run : (id : String) → count_where (run_is id) db.runs ≤ 1
  -- no execution is of a trail that is not there
  pub known :
      (id : String)
      → count_where (recipe_is id) db.recipes ≡ 0
      → count_where (of_trail id) db.runs ≡ 0

pub All-update :
    {R : Type 0} (P Q : R → Type 0) (p : R → Bool) (f : R → R)
    → ((r : R) → p r ≡ true → P r → Q (f r))
    → ((r : R) → p r ≡ false → P r → Q r)
    → (rs : List R) → All P rs
    → All Q (update_where p f rs)
All-update P Q p f hit miss [] h = tt
All-update P Q p f hit miss (r ∷ rs) (h, hs) =
    (if-keeps Q (p r) (λ e. hit r e h) (λ e. miss r e h), All-update P Q p f hit miss rs hs)

pub sum-append :
    (x : String) (es : List Execution) (e : Execution)
    → sum_ratings x (es ++ e ∷ []) ≡ sum_ratings x es + sum_ratings x (e ∷ [])
sum-append x [] e = omega arith
sum-append x (t ∷ es) e = omega (arith, sum-append x es e)

-- No row of a table is written where none satisfies the test.
update_none :
    {R : Type 0} (p : R → Bool) (f : R → R) (rs : List R)
    → count_where p rs ≡ 0
    → update_where p f rs ≡ rs
update_none p f [] e = refl
update_none p f (r ∷ rs) e = ground (arith, update_none p f rs)

find_less :
    (id tid : String) (es : List Execution) {e : Execution}
    → find_where (run_of id tid) es ≡ some e
    → 0 < count_where (run_is id) es
find_less id tid [] f = cc
find_less id tid (t ∷ es) {e} f = ground (arith, find_less id tid es {e = e})

some_eq : {a b : Execution} → some a ≡ some b → a ≡ b
some_eq e = cc

-- The row that a rating finds is the only one of its identifier.
record IsFound (id tid : String) (t : Execution) (es : List Execution) : Type 0 where
  mine : t.trail_id ≡ tid
  unrated : t.rating ≡ none
  alone : count_where (run_is id) es ≡ 0

head-IsFound :
    (id tid : String) (t : Execution) (es : List Execution) {e : Execution}
    → count_where (run_is id) (t ∷ es) ≤ 1
    → run_is id t ≡ true
    → find_where (run_of id tid) (t ∷ es) ≡ some e
    → e.rating ≡ none
    → IsFound id tid t es
head-IsFound id tid t es {e} u b f n =
    let alone : count_where (run_is id) es ≡ 0 = ground arith in
    elim (Bool-cases (str_eq t.trail_id tid)) [
      | inl m ↦
          let same : t ≡ e = some_eq (rw (b, m) at f) in
          record {
            mine = (str_eq_iff t.trail_id tid).0 m;
            unrated = ap (λ (w : Execution). w.rating) same ∙ n;
            alone = alone;
          }
      | inr m ↦ absurd (ground (arith, find_less id tid es {e = e}))
    ]

module _ (x id tid : String) (r : ℕ) where
  pub rating-count :
      (es : List Execution) {e : Execution}
      → count_where (run_is id) es ≤ 1
      → find_where (run_of id tid) es ≡ some e
      → e.rating ≡ none
      → count_where (rated_of x) (update_where (run_is id) (with_rating r) es)
        ≡ count_where (rated_of x) es + (if str_eq tid x then 1 else 0)
  unfolding with_rating
  rating-count [] u f n = cc
  rating-count (t ∷ es) {e} u f n = elim (Bool-cases (run_is id t)) [
    | inl b ↦
        let h = head-IsFound id tid t es u b f n in
        rw (update_none (run_is id) (with_rating r) es h.alone, b, h.mine, h.unrated) (ground arith)
    | inr b ↦ rw b (ground (arith, rating-count es {e = e}))
  ]

  pub rating-sum :
      (es : List Execution) {e : Execution}
      → count_where (run_is id) es ≤ 1
      → find_where (run_of id tid) es ≡ some e
      → e.rating ≡ none
      → sum_ratings x (update_where (run_is id) (with_rating r) es)
        ≡ sum_ratings x es + (if str_eq tid x then r else 0)
  unfolding with_rating
  rating-sum [] u f n = cc
  rating-sum (t ∷ es) {e} u f n = elim (Bool-cases (run_is id t)) [
    | inl b ↦
        let h = head-IsFound id tid t es u b f n in
        rw (update_none (run_is id) (with_rating r) es h.alone, b, h.mine, h.unrated) (ground arith)
    | inr b ↦ rw b (ground (arith, rating-sum es {e = e}))
  ]
