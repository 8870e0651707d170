-- ===== src/Jcs/Cut.antt =====
-- What `_encode` of jcs.py writes and the value behind it; floats are left out, since 1 and 1.0 are
-- written alike.
use argentum_core.Base.{
  ℕ, ◌<◌, ◌≡◌, refl, ap, sym, ◌∙◌, Bool, true, false, [], ◌∷◌, ◌++◌, arith, if◌then◌else◌, ◌||◌,
  ◌==◌,
}
use mathlib.Core.List.{append_assoc}
use argentum_core.Json.{
  Text, Json, Items, Fields, null, bool, int, float, str, arr, obj, no_items, item, no_fields,
  field,
}
use argentum_core.Jcs.{
  items_text, more_items_text, fields_text, more_fields_text, quoted, bool_text, int_text, text_of,
}
use argentum_core.Jcs.Numbers.{starts_digit, starts_number, is_digit, int_text-cut, int_text-number}
use argentum_core.Jcs.Quoted.{quoted-cut}

-- No float is in the value.
unfoldable mutual
  pub IsExact : Json → Type 0
  IsExact (float x) = ⊥
  IsExact (arr xs) = ItemsExact xs
  IsExact (obj fs) = FieldsExact fs
  IsExact j = Unit

  pub ItemsExact : Items → Type 0
  ItemsExact no_items = Unit
  ItemsExact (item x xs) = IsExact x × ItemsExact xs

  pub FieldsExact : Fields → Type 0
  FieldsExact no_fields = Unit
  FieldsExact (field k v fs) = IsExact v × FieldsExact fs

bool_text-cut : (a b : Bool) (u v : Text) → bool_text a ++ u ≡ bool_text b ++ v → (a ≡ b) × (u ≡ v)
unfolding bool_text
bool_text-cut true true u v e = (refl, cc)
bool_text-cut false false u v e = (refl, cc)
bool_text-cut true false u v e = absurd (ground arith)
bool_text-cut false true u v e = absurd (ground arith)

-- The kind of a value shows in its first character.
kind : Json → ℕ
kind null = 0
kind (bool b) = 1
kind (int n) = 2
kind (float x) = 3
kind (str s) = 4
kind (arr xs) = 5
kind (obj fs) = 6

kind_at : Text → ℕ
kind_at [] = 7
kind_at (c ∷ t) =
    if is_digit c || c == 45
    then 2
    else if c == b'n'
    then 0
    else if c == b't'
    then 1
    else if c == b'f'
    then 1
    else if c == 34
    then 4
    else if c == 91
    then 5
    else if c == 123
    then 6
    else 7

kind_at-number : (t : Text) → starts_number t ≡ true → kind_at t ≡ 2
unfolding kind_at
kind_at-number [] h = ground arith
kind_at-number (c ∷ t) h = ground arith

kind_at-text : (a : Json) (u : Text) → IsExact a → kind_at (text_of a ++ u) ≡ kind a
unfolding kind_at kind text_of quoted bool_text IsExact
kind_at-text null u h = refl
kind_at-text (bool true) u h = refl
kind_at-text (bool false) u h = refl
kind_at-text (int n) u h = kind_at-number (int_text n ++ u) (int_text-number n u)
kind_at-text (float x) u h = absurd h
kind_at-text (str s) u h = refl
kind_at-text (arr xs) u h = refl
kind_at-text (obj fs) u h = refl

kind-eq :
    (a b : Json) (u v : Text)
    → IsExact a
    → IsExact b
    → text_of a ++ u ≡ text_of b ++ v
    → kind a ≡ kind b
kind-eq a b u v ha hb e = sym (kind_at-text a u ha) ∙ ap kind_at e ∙ kind_at-text b v hb

kind_below : (a : Json) → kind a < 7
unfolding kind
kind_below null = omega arith
kind_below (bool b) = omega arith
kind_below (int n) = omega arith
kind_below (float x) = omega arith
kind_below (str s) = omega arith
kind_below (arr xs) = omega arith
kind_below (obj fs) = omega arith

-- A value is not written as a closing bracket.
not_close : (a : Json) (u v : Text) → IsExact a → text_of a ++ u ≡ 93 ∷ v → ⊥
unfolding kind_at
not_close a u v ha e =
    let k : kind a ≡ 7 = sym (kind_at-text a u ha) ∙ ap kind_at e in omega (arith, k, kind_below a)

more_items-delim : (xs : Items) (u : Text) → starts_digit (more_items_text xs ++ u) ≡ false
unfolding more_items_text
more_items-delim no_items u = refl
more_items-delim (item x xs) u = refl

more_fields-delim : (fs : Fields) (u : Text) → starts_digit (more_fields_text fs ++ u) ≡ false
unfolding more_fields_text
more_fields-delim no_fields u = refl
more_fields-delim (field k v fs) u = refl

tail_eq : {c d : ℕ} {s t : Text} → c ∷ s ≡ d ∷ t → s ≡ t
tail_eq e = cc

mutual
  unfolding text_of IsExact kind quoted

  text_of-cut :
      (a b : Json) (u v : Text)
      → IsExact a
      → IsExact b
      → starts_digit u ≡ false
      → starts_digit v ≡ false
      → text_of a ++ u ≡ text_of b ++ v
      → (a ≡ b) × (u ≡ v)
  text_of-cut null null u v ha hb hu hv e = (refl, cc)
  text_of-cut null b u v ha hb hu hv e = absurd (ground (arith, kind-eq null b u v tt hb e))
  text_of-cut (bool x) (bool y) u v ha hb hu hv e =
      let r = bool_text-cut x y u v e in (ap bool r.0, r.1)
  text_of-cut (bool x) b u v ha hb hu hv e = absurd (ground (arith, kind-eq (bool x) b u v tt hb e))
  text_of-cut (int m) (int n) u v ha hb hu hv e =
      let r = int_text-cut m n u v hu hv e in (ap int r.0, r.1)
  text_of-cut (int m) b u v ha hb hu hv e = absurd (ground (arith, kind-eq (int m) b u v tt hb e))
  text_of-cut (float x) b u v ha hb hu hv e = absurd ha
  text_of-cut (str s) (str t) u v ha hb hu hv e = let r = quoted-cut s t u v e in (ap str r.0, r.1)
  text_of-cut (str s) b u v ha hb hu hv e = absurd (ground (arith, kind-eq (str s) b u v tt hb e))
  text_of-cut (arr xs) (arr ys) u v ha hb hu hv e =
      let r = items-cut xs ys u v ha hb (cc) in (ap arr r.0, r.1)
  text_of-cut (arr xs) b u v ha hb hu hv e = absurd (ground (arith, kind-eq (arr xs) b u v ha hb e))
  text_of-cut (obj fs) (obj gs) u v ha hb hu hv e =
      let r = fields-cut fs gs u v ha hb (cc) in (ap obj r.0, r.1)
  text_of-cut (obj fs) b u v ha hb hu hv e = absurd (ground (arith, kind-eq (obj fs) b u v ha hb e))

  items-cut :
      (xs ys : Items) (u v : Text)
      → ItemsExact xs
      → ItemsExact ys
      → items_text xs ++ u ≡ items_text ys ++ v
      → (xs ≡ ys) × (u ≡ v)
  items-cut no_items no_items u v hx hy e = (refl, cc)
  items-cut no_items (item y ys) u v hx hy e =
      absurd (not_close y (more_items_text ys ++ v) u hy.0 (rw append_assoc at (sym e)))
  items-cut (item x xs) no_items u v hx hy e =
      absurd (not_close x (more_items_text xs ++ u) v hx.0 (rw append_assoc at e))
  items-cut (item x xs) (item y ys) u v (hx, hxs) (hy, hys) e =
      let r =
        text_of-cut x y (more_items_text xs ++ u) (more_items_text ys ++ v) hx hy
          (more_items-delim xs u) (more_items-delim ys v) (rw (append_assoc, append_assoc) at e) in
      let q = more_items-cut xs ys u v hxs hys r.1 in (cc (r.0, q.0), q.1)

  more_items-cut :
      (xs ys : Items) (u v : Text)
      → ItemsExact xs
      → ItemsExact ys
      → more_items_text xs ++ u ≡ more_items_text ys ++ v
      → (xs ≡ ys) × (u ≡ v)
  more_items-cut no_items no_items u v hx hy e = (refl, cc)
  more_items-cut no_items (item y ys) u v hx hy e = absurd (ground arith)
  more_items-cut (item x xs) no_items u v hx hy e = absurd (ground arith)
  more_items-cut (item x xs) (item y ys) u v (hx, hxs) (hy, hys) e =
      let r =
        text_of-cut x y (more_items_text xs ++ u) (more_items_text ys ++ v) hx hy
          (more_items-delim xs u) (more_items-delim ys v)
          (rw (append_assoc, append_assoc) at (tail_eq e)) in
      let q = more_items-cut xs ys u v hxs hys r.1 in (cc (r.0, q.0), q.1)

  fields-cut :
      (fs gs : Fields) (u v : Text)
      → FieldsExact fs
      → FieldsExact gs
      → fields_text fs ++ u ≡ fields_text gs ++ v
      → (fs ≡ gs) × (u ≡ v)
  fields-cut no_fields no_fields u v hf hg e = (refl, cc)
  fields-cut no_fields (field l w gs) u v hf hg e = absurd (ground arith)
  fields-cut (field k a fs) no_fields u v hf hg e = absurd (ground arith)
  fields-cut (field k a fs) (field l b gs) u v (ha, hfs) (hb, hgs) e =
      let q =
        quoted-cut k l (58 ∷ text_of a ++ (more_fields_text fs ++ u))
          (58 ∷ text_of b ++ (more_fields_text gs ++ v)) (simp append_assoc at e) in
      let r =
        text_of-cut a b (more_fields_text fs ++ u) (more_fields_text gs ++ v) ha hb
          (more_fields-delim fs u) (more_fields-delim gs v) (tail_eq q.1) in
      let z = more_fields-cut fs gs u v hfs hgs r.1 in (cc (q.0, r.0, z.0), z.1)

  more_fields-cut :
      (fs gs : Fields) (u v : Text)
      → FieldsExact fs
      → FieldsExact gs
      → more_fields_text fs ++ u ≡ more_fields_text gs ++ v
      → (fs ≡ gs) × (u ≡ v)
  more_fields-cut no_fields no_fields u v hf hg e = (refl, cc)
  more_fields-cut no_fields (field l w gs) u v hf hg e = absurd (ground arith)
  more_fields-cut (field k a fs) no_fields u v hf hg e = absurd (ground arith)
  more_fields-cut (field k a fs) (field l b gs) u v (ha, hfs) (hb, hgs) e =
      let q =
        quoted-cut k l (58 ∷ text_of a ++ (more_fields_text fs ++ u))
          (58 ∷ text_of b ++ (more_fields_text gs ++ v)) (simp append_assoc at (tail_eq e)) in
      let r =
        text_of-cut a b (more_fields_text fs ++ u) (more_fields_text gs ++ v) ha hb
          (more_fields-delim fs u) (more_fields-delim gs v) (tail_eq q.1) in
      let z = more_fields-cut fs gs u v hfs hgs r.1 in (cc (q.0, r.0, z.0), z.1)

-- The text determines the value.
pub text_of-injective : (a b : Json) → IsExact a → IsExact b → text_of a ≡ text_of b → a ≡ b
text_of-injective a b ha hb e = (text_of-cut a b [] [] ha hb refl refl (ap (λ t. t ++ []) e)).0
