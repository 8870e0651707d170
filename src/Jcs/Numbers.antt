-- ===== src/Jcs/Numbers.antt =====
-- Decimal numerals, and where they end.
use argentum_core.Base.{
  ℕ, zero, suc, ◌+◌, ◌-◌, ◌*◌, ◌/◌, ◌%◌, ◌<◌, ◌≡◌, refl, ap, sym, ◌∙◌, Bool, true, false, [], ◌∷◌,
  ◌++◌, ltb, leb, ◌&&◌, ◌||◌, ◌==◌, arith, All, inl, inr, Bool-cases,
}
use mathlib.Core.List.{append_assoc}
use argentum_core.Json.{Text, ℤ, pos, negsuc}
use argentum_core.Jcs.{digits, decimal, int_text}

abbrev pub is_digit : ℕ → Bool
is_digit c = leb 48 c && leb c 57

abbrev pub IsDigit : ℕ → Type 0
IsDigit c = is_digit c ≡ true

-- A text that does not go on with a digit.
abbrev pub starts_digit : Text → Bool
starts_digit [] = false
starts_digit (c ∷ t) = is_digit c

value : ℕ → Text → ℕ
value acc [] = acc
value acc (c ∷ t) = value (acc * 10 + (c - 48)) t

value-append : (acc : ℕ) (s t : Text) → value acc (s ++ t) ≡ value (value acc s) t
unfolding value
value-append acc [] t = refl
value-append acc (c ∷ s) t = value-append (acc * 10 + (c - 48)) s t

digits-value : (f n : ℕ) → n < f → value 0 (digits f n) ≡ n
unfolding digits value
digits-value zero n h = omega arith
digits-value (suc f) n h = elim (Bool-cases (ltb n 10)) [
  | inl e ↦ rw e (ground arith)
  | inr e ↦
      rw
        (
          e,
          value-append 0 (digits f (n / 10)) ((n % 10 + 48) ∷ []),
          digits-value f (n / 10) (ground arith),
        )
        (omega arith)
]

All-append : (s t : Text) → All IsDigit s → All IsDigit t → All IsDigit (s ++ t)
All-append [] t hs ht = ht
All-append (c ∷ s) t (h, hs) ht = (h, All-append s t hs ht)

digits-IsDigit : (f n : ℕ) → All IsDigit (digits f n)
unfolding digits
digits-IsDigit zero n = tt
digits-IsDigit (suc f) n = elim (Bool-cases (ltb n 10)) [
  | inl e ↦ rw e (ground arith, tt)
  | inr e ↦ rw e (All-append (digits f (n / 10)) _ (digits-IsDigit f (n / 10)) (ground arith, tt))
]

-- Where two runs of digits end is determined by what follows.
digits-cut :
    (s t u v : Text)
    → All IsDigit s
    → All IsDigit t
    → starts_digit u ≡ false
    → starts_digit v ≡ false
    → s ++ u ≡ t ++ v
    → (s ≡ t) × (u ≡ v)
digits-cut [] [] u v hs ht hu hv e = (refl, e)
digits-cut [] (d ∷ t) u v hs ht hu hv e = absurd (ground (arith, ap starts_digit e))
digits-cut (c ∷ s) [] u v hs ht hu hv e = absurd (ground (arith, ap starts_digit e))
digits-cut (c ∷ s) (d ∷ t) u v (h, hs) (g, ht) hu hv e =
    let r = digits-cut s t u v hs ht hu hv (cc) in (cc (r.0), r.1)

decimal-cut :
    (m n : ℕ) (u v : Text)
    → starts_digit u ≡ false
    → starts_digit v ≡ false
    → decimal m ++ u ≡ decimal n ++ v
    → (m ≡ n) × (u ≡ v)
unfolding decimal
decimal-cut m n u v hu hv e =
    let r =
      digits-cut (digits (m + 1) m) (digits (n + 1) n) u v (digits-IsDigit (m + 1) m)
        (digits-IsDigit (n + 1) n) hu hv e in
    (
      sym (digits-value (m + 1) m (omega arith))
          ∙ ap (value 0) r.0
          ∙ digits-value (n + 1) n (omega arith),
      r.1,
    )

-- A numeral begins with a digit.
digits-first : (f n : ℕ) (u : Text) → starts_digit (digits (suc f) n ++ u) ≡ true
unfolding digits
digits-first zero n u = elim (Bool-cases (ltb n 10)) [
  | inl e ↦ rw e (ground arith)
  | inr e ↦ rw e (ground arith)
]
digits-first (suc f) n u = elim (Bool-cases (ltb n 10)) [
  | inl e ↦ rw e (ground arith)
  | inr e ↦ rw (e, append_assoc) (digits-first f (n / 10) ((n % 10 + 48) ∷ u))
]

decimal-first : (n : ℕ) (u : Text) → starts_digit (decimal n ++ u) ≡ true
unfolding decimal
decimal-first n u = let one_more : n + 1 ≡ suc n = omega arith in rw one_more (digits-first n n u)

-- The first character of a number: a digit or a minus sign.
pub int_text-cut :
    (a b : ℤ) (u v : Text)
    → starts_digit u ≡ false
    → starts_digit v ≡ false
    → int_text a ++ u ≡ int_text b ++ v
    → (a ≡ b) × (u ≡ v)
unfolding int_text
int_text-cut (pos m) (pos n) u v hu hv e = let r = decimal-cut m n u v hu hv e in (ap pos r.0, r.1)
int_text-cut (pos m) (negsuc n) u v hu hv e =
    absurd (ground (arith, decimal-first m u, ap starts_digit e))
int_text-cut (negsuc m) (pos n) u v hu hv e =
    absurd (ground (arith, decimal-first n v, ap starts_digit e))
int_text-cut (negsuc m) (negsuc n) u v hu hv e =
    let r = decimal-cut (m + 1) (n + 1) u v hu hv (cc) in (ap negsuc (omega (arith, r.0)), r.1)

-- Whether a text goes on as a number does.
abbrev pub starts_number : Text → Bool
starts_number [] = false
starts_number (c ∷ t) = is_digit c || c == 45

pub int_text-number : (a : ℤ) (u : Text) → starts_number (int_text a ++ u) ≡ true
unfolding int_text
int_text-number (pos n) u = digit_number (decimal n ++ u) (decimal-first n u)
  where
    digit_number : (t : Text) → starts_digit t ≡ true → starts_number t ≡ true
    digit_number [] h = ground arith
    digit_number (c ∷ t) h = ground arith
int_text-number (negsuc n) u = refl
