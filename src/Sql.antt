-- ===== src/Sql.antt =====
-- The SQL statements the program sends to SQLite, over a table as the list of its rows in the
-- order of insertion. Where a statement's ORDER BY leaves ties, the earliest row comes first.
use argentum_core.Base.{
  ℕ, ◌+◌, ◌≤◌, ◌<◌, ◌≡◌, refl, Bool, true, false, List, [], ◌∷◌, ◌++◌, Option, none, some, arith,
  length, ltb, str_eq, if◌then◌else◌, String,
}

module _ {R : Type 0} where
  -- SELECT ... WHERE, all rows.
  abbrev pub select_where : (R → Bool) → List R → List R
  select_where p [] = []
  select_where p (r ∷ rs) = if p r then r ∷ select_where p rs else select_where p rs

  -- The same, `fetchone()`.
  abbrev pub find_where : (R → Bool) → List R → Option R
  find_where p [] = none
  find_where p (r ∷ rs) = if p r then some r else find_where p rs

  -- SELECT COUNT(*) ... WHERE; for an UPDATE also its `rowcount`.
  abbrev pub count_where : (R → Bool) → List R → ℕ
  count_where p [] = 0
  count_where p (r ∷ rs) = (if p r then 1 else 0) + count_where p rs

  -- UPDATE ... SET ... WHERE.
  abbrev pub update_where : (R → Bool) → (R → R) → List R → List R
  update_where p f [] = []
  update_where p f (r ∷ rs) = (if p r then f r else r) ∷ update_where p f rs

  -- ORDER BY key DESC LIMIT 1 over the rows at hand.
  abbrev pub top_by : (R → ℕ) → List R → Option R
  top_by key [] = none
  top_by key (r ∷ rs) = elim (top_by key rs) [
    | none ↦ some r
    | some t ↦ if ltb (key r) (key t) then some t else some r
  ]

  -- Where a row goes among rows ordered by key DESC: after those with a greater key.
  abbrev pub insert_desc : (R → ℕ) → R → List R → List R
  insert_desc key r [] = r ∷ []
  insert_desc key r (t ∷ ts) = if ltb (key r) (key t) then t ∷ insert_desc key r ts else r ∷ t ∷ ts

  -- ORDER BY key DESC.
  abbrev pub order_desc : (R → ℕ) → List R → List R
  order_desc key [] = []
  order_desc key (r ∷ rs) = insert_desc key r (order_desc key rs)

  pub count-append :
      (p : R → Bool) (rs ts : List R)
      → count_where p (rs ++ ts) ≡ count_where p rs + count_where p ts
  count-append p [] ts = omega arith
  count-append p (r ∷ rs) ts = omega (arith, count-append p rs ts)

  pub count-le-length : (p : R → Bool) (rs : List R) → count_where p rs ≤ length rs
  count-le-length p [] = omega arith
  count-le-length p (r ∷ rs) = ground (arith, count-le-length p rs)

  pub length-update :
      (p : R → Bool) (f : R → R) (rs : List R) → length (update_where p f rs) ≡ length rs
  length-update p f [] = refl
  length-update p f (r ∷ rs) = omega (arith, length-update p f rs)

  pub count_mono :
      (p q : R → Bool)
      → ((r : R) → p r ≡ true → q r ≡ true)
      → (rs : List R) → count_where p rs ≤ count_where q rs
  count_mono p q h [] = omega arith
  count_mono p q h (r ∷ rs) = ground (arith, h r, count_mono p q h rs)

  -- A test that is weaker at every row and strictly weaker at a row that is there counts more.
  pub count_lt :
      (p q f : R → Bool)
      → ((r : R) → p r ≡ true → q r ≡ true)
      → (rs : List R) {t : R} → find_where f rs ≡ some t
      → p t ≡ false
      → q t ≡ true
      → count_where p rs < count_where q rs
  count_lt p q f h [] e np yq = cc
  count_lt p q f h (r ∷ rs) {t} e np yq =
      ground (arith, h r, count_mono p q h rs, count_lt p q f h rs {t = t})

  -- A row that `fetchone` gives satisfies the test.
  pub find-holds : (p : R → Bool) (rs : List R) {r : R} → find_where p rs ≡ some r → p r ≡ true
  find-holds p [] e = cc
  find-holds p (t ∷ rs) {r} e = ground (arith, find-holds p rs {r = r})

  -- Nothing is found exactly when nothing counts.
  pub count-find_none : (p : R → Bool) (rs : List R) → find_where p rs ≡ none → count_where p rs ≡ 0
  count-find_none p [] e = refl
  count-find_none p (t ∷ rs) e = ground (arith, count-find_none p rs)

  pub count-find_some :
      (p : R → Bool) (rs : List R) {r : R} → find_where p rs ≡ some r → 0 < count_where p rs
  count-find_some p [] e = cc
  count-find_some p (t ∷ rs) {r} e = ground (arith, count-find_some p rs {r = r})

  -- Where an update keeps the test, it keeps the count.
  pub count-update :
      (p q : R → Bool) (f : R → R)
      → ((r : R) → q (f r) ≡ q r)
      → (rs : List R) → count_where q (update_where p f rs) ≡ count_where q rs
  count-update p q f keep [] = refl
  count-update p q f keep (r ∷ rs) = ground (arith, keep r, count-update p q f keep rs)

-- `x in {...}` for strings.
abbrev pub str_mem : String → List String → Bool
str_mem x [] = false
str_mem x (y ∷ ys) = if str_eq y x then true else str_mem x ys
