-- ===== src/Mycelium/Anchor/Final.antt =====
-- A round of the poller leaves a trail that is not awaiting its receipt as it was.
use argentum_core.Base.{
  ℕ, zero, suc, ◌≤◌, ◌≡◌, refl, ◌∙◌, false, List, [], ◌∷◌, Option, none, some, String, arith, All,
  ltb, str_eq, str_eq_iff, Bool-cases, if-keeps, inl, inr,
}
use argentum_core.Sql.{find_where, count_where, update_where, select_where, order_desc, insert_desc}
use argentum_core.Mycelium.Store.{Trail, TrailsDb}
use argentum_core.Mycelium.Trails.{
  has_id, get_trail_by_id, confirm_trail_anchor, fail_trail_anchor, update_trail,
}
use argentum_core.Mycelium.Anchor.{
  Receipt, Action, confirm, fail_revert, fail_timeout, wait, awaits, limit, get_submitted_trails,
  with_0x, hash_of, Node, acted, poll_answer, poll_each, poll,
}

-- The trails of another identifier.
abbrev Other : String → Trail → Type 0
Other id t = has_id id t ≡ false

insert-All :
    (P : Trail → Type 0) (key : Trail → ℕ) (t : Trail) (ts : List Trail)
    → P t
    → All P ts
    → All P (insert_desc key t ts)
insert-All P key t [] p h = (p, tt)
insert-All P key t (r ∷ ts) p (q, h) =
    if-keeps (All P) (ltb (key t) (key r)) (λ e. (q, insert-All P key t ts p h)) (λ e. (p, (q, h)))

order-All :
    (P : Trail → Type 0) (key : Trail → ℕ) (ts : List Trail) → All P ts → All P (order_desc key ts)
order-All P key [] h = tt
order-All P key (t ∷ ts) (p, h) = insert-All P key t _ p (order-All P key ts h)

limit-All : (P : Trail → Type 0) (n : ℕ) (ts : List Trail) → All P ts → All P (limit n ts)
unfolding limit
limit-All P zero ts h = tt
limit-All P (suc n) [] h = tt
limit-All P (suc n) (t ∷ ts) (p, h) = (p, limit-All P n ts h)

none-Other :
    (id : String) (ts : List Trail)
    → count_where (has_id id) ts ≡ 0
    → All (Other id) (select_where awaits ts)
none-Other id [] h = tt
none-Other id (t ∷ ts) h =
    if-keeps (All (Other id)) (awaits t) (λ e. (ground arith, none-Other id ts (ground arith)))
      (λ e. none-Other id ts (ground arith))

-- Where the one row of an identifier does not await a receipt, no selected row is of it.
select-Other :
    (id : String) (ts : List Trail) {t : Trail}
    → count_where (has_id id) ts ≤ 1
    → find_where (has_id id) ts ≡ some t
    → awaits t ≡ false
    → All (Other id) (select_where awaits ts)
select-Other id [] u f n = cc
select-Other id (r ∷ ts) {t} u f n = elim (Bool-cases (has_id id r)) [
  | inl e ↦
      let same : some r ≡ some t = rw e at f in
      let off : awaits r ≡ false = cc in rw off (none-Other id ts (ground arith))
  | inr e ↦
      if-keeps (All (Other id)) (awaits r)
        (λ g. (e, select-Other id ts (ground arith) (rw e at f) n))
        (λ g. select-Other id ts (ground arith) (rw e at f) n)
]

find-update_other :
    (id other : String) (f : Trail → Trail)
    → ((t : Trail) → (f t).trail_id ≡ t.trail_id)
    → str_eq other id ≡ false
    → (ts : List Trail)
    → find_where (has_id id) (update_where (has_id other) f ts) ≡ find_where (has_id id) ts
find-update_other id other f keep n [] = refl
find-update_other id other f keep n (t ∷ ts) = ground (
  arith,
  keep t,
  find-update_other id other f keep n ts,
  str_eq_iff t.trail_id other,
  str_eq_iff t.trail_id id,
  str_eq_iff other id,
)

acted-Other :
    (a : Action) (r : Option Receipt) (id : String) (t : Trail) (db : TrailsDb)
    → Other id t
    → get_trail_by_id (acted a r t db) id ≡ get_trail_by_id db id
unfolding acted confirm_trail_anchor fail_trail_anchor update_trail get_trail_by_id
acted-Other confirm r id t db o = find-update_other id t.trail_id _ (λ x. refl) o db.trails
acted-Other fail_revert r id t db o = find-update_other id t.trail_id _ (λ x. refl) o db.trails
acted-Other fail_timeout r id t db o = find-update_other id t.trail_id _ (λ x. refl) o db.trails
acted-Other wait r id t db o = refl

answer-Other :
    (o : Option (Option Receipt)) (now : ℕ) (id : String) (t : Trail) (db : TrailsDb)
    → Other id t
    → get_trail_by_id (poll_answer o now t db) id ≡ get_trail_by_id db id
unfolding poll_answer
answer-Other none now id t db h = refl
answer-Other (some r) now id t db h = acted-Other _ r id t db h

each-Other :
    (node : Node) (now : ℕ) (id : String) (ts : List Trail) (db : TrailsDb)
    → All (Other id) ts
    → get_trail_by_id (poll_each node now ts db) id ≡ get_trail_by_id db id
unfolding poll_each
each-Other node now id [] db h = refl
each-Other node now id (t ∷ ts) db (o, h) =
    each-Other node now id ts _ h ∙ answer-Other (node (with_0x (hash_of t.tx_hash))) now id t db o

-- A trail whose identifier is its own, and that has no transaction or is not submitted, for one
-- that is anchored or failed, is after a round of the poller what it was before, whatever the node answers.
pub poll_keeps :
    (node : Node) (now : ℕ) (id : String) (db : TrailsDb) {t : Trail}
    → count_where (has_id id) db.trails ≤ 1
    → get_trail_by_id db id ≡ some t
    → awaits t ≡ false
    → get_trail_by_id (poll node now db) id ≡ some t
unfolding poll get_submitted_trails get_trail_by_id
poll_keeps node now id db u f n =
    each-Other node now id _ db (
      limit-All (Other id) 20 _
        (order-All (Other id) (λ t. t.timestamp) _ (select-Other id db.trails u f n)))
    ∙ f
