-- ===== src/TrailHead/Cadence/Gaps.antt =====
-- The gaps between the times of checkpoints, and the breach that `verify_checkpoint_cadence` reports.
use argentum_core.Base.{
  ℕ, ◌+◌, ◌*◌, ◌≤◌, ◌<◌, ◌≡◌, ◌↔◌, refl, sym, ◌∙◌, ◌⊎◌, inl, inr, true, false, List, [], ◌∷◌, some,
  ltb, arith, All, Bool-cases, length,
}
use argentum_core.Json.{pos, Json}
use argentum_core.TrailHead.{Setup}
use argentum_core.TrailHead.Cadence.{
  ok_cadence, period_exceeds_declared_maximum, insert_stamp, sort_stamps, first_gap, stamps,
  verify_checkpoint_cadence, all_hashable, one_agent, check_cadence,
}

abbrev pub Has : ℕ → List ℕ → Type 0
Has n [] = ⊥
Has n (m ∷ ms) = (n ≡ m) ⊎ Has n ms

-- Two times of the list more than `most` apart, with no other between them.
pub record IsGap (most a b : ℕ) (ns : List ℕ) : Type 0 where
  pub first : Has a ns
  pub last : Has b ns
  pub wide : a + most < b
  pub empty : All (λ n. (n ≤ a) ⊎ (b ≤ n)) ns

abbrev IsSorted : List ℕ → Type 0
IsSorted [] = Unit
IsSorted (n ∷ ns) = All (λ m. n ≤ m) ns × IsSorted ns

insert_stamp-All :
    (P : ℕ → Type 0) (n : ℕ) (ns : List ℕ) → P n → All P ns → All P (insert_stamp n ns)
unfolding insert_stamp
insert_stamp-All P n [] p h = (p, tt)
insert_stamp-All P n (m ∷ ms) p (q, h) = elim (Bool-cases (ltb m n)) [
  | inl e ↦ rw e (q, insert_stamp-All P n ms p h)
  | inr e ↦ rw e (p, (q, h))
]

insert_stamp-back :
    (P : ℕ → Type 0) (n : ℕ) (ns : List ℕ) → All P (insert_stamp n ns) → P n × All P ns
unfolding insert_stamp
insert_stamp-back P n [] (p, h) = (p, tt)
insert_stamp-back P n (m ∷ ms) h = elim (Bool-cases (ltb m n)) [
  | inl e ↦ let (q, r) = rw e at h in let (p, t) = insert_stamp-back P n ms r in (p, (q, t))
  | inr e ↦ rw e at h
]

insert_stamp-Has : (a n : ℕ) (ns : List ℕ) → Has a (insert_stamp n ns) ↔ ((a ≡ n) ⊎ Has a ns)
unfolding insert_stamp
insert_stamp-Has a n [] = ((λ h. h), λ h. h)
insert_stamp-Has a n (m ∷ ms) = elim (Bool-cases (ltb m n)) [
  | inl e ↦
      let i = insert_stamp-Has a n ms in
      rw e (
        (λ h. elim h [
          | inl p ↦ inr (inl p)
          | inr r ↦ elim (i.0 r) [ inl q ↦ inl q | inr q ↦ inr (inr q) ]
        ]),
        λ h. elim h [
          | inl q ↦ inr (i.1 (inl q))
          | inr r ↦ elim r [ inl p ↦ inl p | inr q ↦ inr (i.1 (inr q)) ]
        ],
      )
  | inr e ↦ rw e ((λ h. h), λ h. h)
]

lowered : {a b : ℕ} (ns : List ℕ) → a ≤ b → All (λ m. b ≤ m) ns → All (λ m. a ≤ m) ns
lowered [] h g = tt
lowered (n ∷ ns) h (p, g) = (omega (arith, h, p), lowered ns h g)

insert_stamp-IsSorted : (n : ℕ) (ns : List ℕ) → IsSorted ns → IsSorted (insert_stamp n ns)
unfolding insert_stamp
insert_stamp-IsSorted n [] h = (tt, tt)
insert_stamp-IsSorted n (m ∷ ms) (h, g) = elim (Bool-cases (ltb m n)) [
  | inl e ↦
      rw e (insert_stamp-All (λ k. m ≤ k) n ms (ground (arith, e)) h, insert_stamp-IsSorted n ms g)
  | inr e ↦ rw e ((ground (arith, e), lowered ms (ground (arith, e)) h), (h, g))
]

sort_stamps-IsSorted : (ns : List ℕ) → IsSorted (sort_stamps ns)
unfolding sort_stamps
sort_stamps-IsSorted [] = tt
sort_stamps-IsSorted (n ∷ ns) = insert_stamp-IsSorted n (sort_stamps ns) (sort_stamps-IsSorted ns)

at_least : {a n : ℕ} (ns : List ℕ) → All (λ m. n ≤ m) ns → Has a ns → n ≤ a
at_least [] h g = absurd g
at_least (m ∷ ms) (p, h) (inl e) = omega (arith, p, e)
at_least (m ∷ ms) (p, h) (inr g) = at_least ms h g

first_gap-IsGap :
    (most : ℕ) (ns : List ℕ) {a b : ℕ}
    → IsSorted ns
    → first_gap most ns ≡ period_exceeds_declared_maximum a b
    → IsGap most a b ns
unfolding first_gap
first_gap-IsGap most [] h e = absurd (ground arith)
first_gap-IsGap most (x ∷ []) h e = absurd (ground arith)
first_gap-IsGap most (x ∷ y ∷ ns) {a = a} {b = b} ((xy, xs), (ys, s)) e =
    elim (Bool-cases (ltb (x + most) y)) [
      | inl t ↦
          let e' = rw (t, first_gap) at e in
          let p : x ≡ a = ground (arith, e') in
          let q : y ≡ b = ground (arith, e') in
          record {
            first = inl (sym p);
            last = inr (inl (sym q));
            wide = ground (arith, t, p, q);
            empty = (inl (omega (arith, p)), (inr (omega (arith, q)), right ns q ys));
          }
      | inr t ↦
          let e' = rw (t, first_gap) at e in
          let g = first_gap-IsGap most (y ∷ ns) (ys, s) e' in
          record {
            first = inr g.first;
            last = inr g.last;
            wide = g.wide;
            empty = (inl (at_least (y ∷ ns) (xy, xs) g.first), g.empty);
          }
    ]
  where
    right : (ms : List ℕ) → y ≡ b → All (λ m. y ≤ m) ms → All (λ n. (n ≤ a) ⊎ (b ≤ n)) ms
    right [] q h = tt
    right (m ∷ ms) q (p, h) = (inr (omega (arith, q, p)), right ms q h)

no_gap :
    (most : ℕ) (ns : List ℕ) (a b : ℕ)
    → IsSorted ns
    → first_gap most ns ≡ ok_cadence
    → IsGap most a b ns
    → ⊥
unfolding first_gap
no_gap most [] a b h e g = g.first
no_gap most (x ∷ []) a b h e g = single g.first g.last
  where
    single : (a ≡ x) ⊎ ⊥ → (b ≡ x) ⊎ ⊥ → ⊥
    single (inl p) (inl q) = omega (arith, p, q, g.wide)
    single (inr p) q = p
    single (inl p) (inr q) = q
no_gap most (x ∷ y ∷ ns) a b ((xy, xs), (ys, s)) e g = elim (Bool-cases (ltb (x + most) y)) [
  | inl t ↦ let e' = rw (t, first_gap) at e in absurd (ground (arith, e'))
  | inr t ↦
      no_gap most (y ∷ ns) a b (ys, s) (rw (t, first_gap) at e)
        (record {
          first = first_in g.first t;
          last = last_in g.last;
          wide = g.wide;
          empty = g.empty.1;
        })
]
  where
    first_in : (a ≡ x) ⊎ Has a (y ∷ ns) → ltb (x + most) y ≡ false → Has a (y ∷ ns)
    first_in (inr r) t = r
    first_in (inl p) t = elim (g.empty.1.0) [
      | inl z ↦ inl (ground (arith, z, p, xy))
      | inr z ↦ absurd (ground (arith, z, p, t, g.wide))
    ]

    last_in : (b ≡ x) ⊎ Has b (y ∷ ns) → Has b (y ∷ ns)
    last_in (inr r) = r
    last_in (inl p) = absurd (
        let q = at_least (x ∷ y ∷ ns) (omega arith, (xy, xs)) g.first in
        omega (arith, p, q, g.wide))

sort_stamps-Has : (a : ℕ) (ns : List ℕ) → Has a (sort_stamps ns) ↔ Has a ns
unfolding sort_stamps
sort_stamps-Has a [] = ((λ h. h), λ h. h)
sort_stamps-Has a (n ∷ ns) =
    let i = insert_stamp-Has a n (sort_stamps ns) in
    let j = sort_stamps-Has a ns in
    (
      (λ h. elim (i.0 h) [ inl p ↦ inl p | inr r ↦ inr (j.0 r) ]),
      λ h. elim h [ inl p ↦ i.1 (inl p) | inr r ↦ i.1 (inr (j.1 r)) ],
    )

sort_stamps-All : (P : ℕ → Type 0) (ns : List ℕ) → All P (sort_stamps ns) ↔ All P ns
unfolding sort_stamps
sort_stamps-All P [] = ((λ h. h), λ h. h)
sort_stamps-All P (n ∷ ns) =
    let j = sort_stamps-All P ns in
    (
      (λ h. let (p, r) = insert_stamp-back P n (sort_stamps ns) h in (p, j.0 r)),
      λ h. insert_stamp-All P n (sort_stamps ns) h.0 (j.1 h.1),
    )

IsGap-sort_stamps :
    (most a b : ℕ) (ns : List ℕ) → IsGap most a b (sort_stamps ns) ↔ IsGap most a b ns
IsGap-sort_stamps most a b ns = (
  (λ g. record {
    first = (sort_stamps-Has a ns).0 g.first;
    last = (sort_stamps-Has b ns).0 g.last;
    wide = g.wide;
    empty = (sort_stamps-All _ ns).0 g.empty;
  }),
  λ g. record {
    first = (sort_stamps-Has a ns).1 g.first;
    last = (sort_stamps-Has b ns).1 g.last;
    wide = g.wide;
    empty = (sort_stamps-All _ ns).1 g.empty;
  },
)

first_gap-cases :
    (most : ℕ) (ns : List ℕ)
    → (first_gap most ns ≡ ok_cadence)
      ⊎ ((a : ℕ) × (b : ℕ) × (first_gap most ns ≡ period_exceeds_declared_maximum a b))
unfolding first_gap
first_gap-cases most [] = inl refl
first_gap-cases most (x ∷ []) = inl refl
first_gap-cases most (x ∷ y ∷ ns) = elim (Bool-cases (ltb (x + most) y)) [
  | inl t ↦ inr (x, y, rw t refl)
  | inr t ↦ rw t (first_gap-cases most (y ∷ ns))
]

-- For a stream of one agent with two checkpoints or more, each with a time that can be read, and a bound of m
-- seconds, `verify_checkpoint_cadence` either answers "ok", and no two of the times are more than m seconds
-- apart with no other between them, or reports a breach at two times that are.
pub breach_or_ok :
    (s : Setup) (cs : List Json) (m : ℕ) (ns : List ℕ)
    → 0 < m
    → 2 ≤ length cs
    → all_hashable cs ≡ true
    → one_agent cs ≡ true
    → stamps s cs ≡ some ns
    → ((verify_checkpoint_cadence s cs (pos m) ≡ ok_cadence)
        × ((a b : ℕ) → IsGap (m * 1000000) a b ns → ⊥))
      ⊎ ((a : ℕ) × (b : ℕ) × (verify_checkpoint_cadence s cs (pos m)
            ≡ period_exceeds_declared_maximum a b)
          × IsGap (m * 1000000) a b ns)
unfolding verify_checkpoint_cadence check_cadence
breach_or_ok s cs m ns hm hl hh ho hs =
    let most = m * 1000000 in
    let run : verify_checkpoint_cadence s cs (pos m) ≡ first_gap most (sort_stamps ns) =
      (let p : ltb 0 m ≡ true = ground (arith, hm) in
        let q : ltb (length cs) 2 ≡ false = ground (arith, hl) in rw (p, q, hh, ho, hs) refl) in
    elim (first_gap-cases most (sort_stamps ns)) [
      | inl e ↦ inl (
        run ∙ e,
        λ a b g.
            no_gap most (sort_stamps ns) a b (sort_stamps-IsSorted ns) e
              ((IsGap-sort_stamps most a b ns).1 g),
      )
      | inr (a, b, e) ↦ inr (
        a,
        b,
        run ∙ e,
        (IsGap-sort_stamps most a b ns).0
            (first_gap-IsGap most (sort_stamps ns) (sort_stamps-IsSorted ns) e),
      )
    ]
