-- ===== src/Json/Equal.antt =====
-- `==` of Python on values of one type each; that True equals 1, and 1 equals 1.0, is left out.
use argentum_core.Base.{ℕ, ◌≡◌, ap, sym, Bool, true, false, Option, none, some, ◌==◌, ◌&&◌, arith}
use argentum_core.Bytes.{bytes_eq, bytes_eq-eq, bytes_eq_refl}
use argentum_core.Json.{
  Text, ℤ, pos, negsuc, Float, zero_float, finite, Json, Items, Fields, null, bool, int, float, str,
  arr, obj, no_items, item, no_fields, field,
}

abbrev pub bool_eq : Bool → Bool → Bool
bool_eq true b = b
bool_eq false true = false
bool_eq false false = true

abbrev pub int_eq : ℤ → ℤ → Bool
int_eq (pos m) (pos n) = m == n
int_eq (negsuc m) (negsuc n) = m == n
int_eq _ _ = false

-- NaN is not equal to itself, and infinities are out of every profile.
abbrev pub float_eq : Float → Float → Bool
float_eq zero_float zero_float = true
float_eq (finite n b a e) (finite m d c f) =
    bool_eq n m && (bytes_eq b d && (bytes_eq a c && int_eq e f))
float_eq _ _ = false

unfoldable mutual
  pub json_eq : Json → Json → Bool
  json_eq null null = true
  json_eq (bool a) (bool b) = bool_eq a b
  json_eq (int m) (int n) = int_eq m n
  json_eq (float x) (float y) = float_eq x y
  json_eq (str s) (str t) = bytes_eq s t
  json_eq (arr xs) (arr ys) = items_eq xs ys
  json_eq (obj fs) (obj gs) = fields_eq fs gs
  json_eq _ _ = false

  pub items_eq : Items → Items → Bool
  items_eq no_items no_items = true
  items_eq (item x xs) (item y ys) = json_eq x y && items_eq xs ys
  items_eq _ _ = false

  -- Entries in the same order.
  pub fields_eq : Fields → Fields → Bool
  fields_eq no_fields no_fields = true
  fields_eq (field k v fs) (field l w gs) = bytes_eq k l && (json_eq v w && fields_eq fs gs)
  fields_eq _ _ = false

abbrev pub option_eq : Option Json → Option Json → Bool
option_eq none none = true
option_eq (some a) (some b) = json_eq a b
option_eq _ _ = false

-- What equals a text is that text.
pub json_eq-str : (j : Json) (t : Text) → json_eq j (str t) ≡ true → j ≡ str t
unfolding json_eq
json_eq-str (str s) t e = ap str (bytes_eq-eq s t e)
json_eq-str j t e = absurd (ground arith)

pub str-json_eq : (j : Json) (t : Text) → json_eq (str t) j ≡ true → j ≡ str t
unfolding json_eq
str-json_eq (str s) t e = ap str (sym (bytes_eq-eq t s e))
str-json_eq j t e = absurd (ground arith)

pub json_eq_refl_text : (t : Text) → json_eq (str t) (str t) ≡ true
unfolding json_eq
json_eq_refl_text t = bytes_eq_refl t

pub json_eq_refl_number : (n : ℕ) → json_eq (int (pos n)) (int (pos n)) ≡ true
unfolding json_eq
json_eq_refl_number n = ground arith
