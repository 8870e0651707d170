-- ===== src/Jcs.antt =====
-- jcs.py: the canonical JSON that is hashed and signed. `text_of` is what `_encode` returns, with
-- ensure_ascii False as every caller has it, and `in_profile` is false where it raises ValueError.
pub mod Numbers
pub mod Quoted
pub mod Cut
pub mod Same
pub mod Order
mod Tests
use argentum_core.Base.{
  ℕ, zero, suc, ◌+◌, ◌-◌, ◌*◌, ◌/◌, ◌%◌, ◌^◌, Bool, true, false, List, [], ◌∷◌, ◌++◌, Option, none,
  some, ltb, leb, ◌==◌, if◌then◌else◌, ◌&&◌, ◌||◌, length,
}
use argentum_core.Bytes.{Bytes, bytes_lt, hex_digit}
use argentum_core.Json.{
  Text, codes, ℤ, pos, negsuc, Float, special, zero_float, finite, Json, Items, Fields, null, bool,
  int, float, str, arr, obj, no_items, item, no_fields, field,
}
use argentum_core.Utf8.{utf16_be, utf8}

-- The order of keys by UTF-16 code unit; `sorted` is stable.
unfoldable pub key_lt : Text → Text → Bool
key_lt k l = bytes_lt (utf16_be k) (utf16_be l)

unfoldable pub insert_key : Text → Json → Fields → Fields
insert_key k v no_fields = field k v no_fields
insert_key k v (field l w fs) =
    if key_lt l k then field l w (insert_key k v fs) else field k v (field l w fs)

unfoldable mutual
  pub canonicalize : Json → Json
  canonicalize (obj fs) = obj (canonicalize_fields fs)
  canonicalize (arr xs) = arr (canonicalize_items xs)
  canonicalize j = j

  pub canonicalize_items : Items → Items
  canonicalize_items no_items = no_items
  canonicalize_items (item x xs) = item (canonicalize x) (canonicalize_items xs)

  pub canonicalize_fields : Fields → Fields
  canonicalize_fields no_fields = no_fields
  canonicalize_fields (field k v fs) = insert_key k (canonicalize v) (canonicalize_fields fs)

-- `str(n)` of a natural number; `n` itself is fuel enough.
unfoldable pub digits : ℕ → ℕ → Text
digits zero n = []
digits (suc f) n = if ltb n 10 then (n + 48) ∷ [] else digits f (n / 10) ++ (n % 10 + 48) ∷ []

unfoldable pub decimal : ℕ → Text
decimal n = digits (n + 1) n

unfoldable pub int_text : ℤ → Text
int_text (pos n) = decimal n
int_text (negsuc n) = 45 ∷ decimal (n + 1)

-- `-(2**53 - 1) <= obj <= 2**53 - 1`
unfoldable pub max_safe : ℕ
max_safe = 2 ^ 53 - 1

unfoldable pub int_in_profile : ℤ → Bool
int_in_profile (pos n) = leb n max_safe
int_in_profile (negsuc n) = leb (n + 1) max_safe

-- `s.lstrip("0")` and `s.rstrip("0")`
unfoldable pub lstrip0 : Text → Text
lstrip0 [] = []
lstrip0 (c ∷ t) = if c == 48 then lstrip0 t else c ∷ t

unfoldable pub rstrip0 : Text → Text
rstrip0 [] = []
rstrip0 (c ∷ t) = if c == 48 && length (rstrip0 t) == 0 then [] else c ∷ rstrip0 t

unfoldable pub zeros : ℕ → Text
zeros zero = []
zeros (suc n) = 48 ∷ zeros n

unfoldable pub difference : ℕ → ℕ → ℤ
difference a b = if leb b a then pos (a - b) else negsuc (b - a - 1)

-- `len(int_part) - leading_zeros + exp`
unfoldable pub point_position : ℕ → ℕ → ℤ → ℤ
point_position before leading (pos e) = difference (before + e) leading
point_position before leading (negsuc e) = difference before (leading + (e + 1))

unfoldable pub split_at : ℕ → Text → Text
split_at zero t = 46 ∷ t
split_at (suc n) [] = 46 ∷ []
split_at (suc n) (c ∷ t) = c ∷ split_at n t

unfoldable pub mantissa : Text → Text
mantissa [] = []
mantissa (d ∷ []) = d ∷ []
mantissa (d ∷ e ∷ ds) = d ∷ 46 ∷ e ∷ ds

-- The four shapes of Number::toString, by the position `n` of the point in the digits.
unfoldable pub place_point : Text → ℤ → Text
place_point ds (pos n) =
    if leb (length ds) n && leb n 21
    then ds ++ zeros (n - length ds)
    else if ltb 0 n && leb n 21
    then split_at n ds
    else if n == 0
    then codes "0." ++ ds
    else mantissa ds ++ codes "e+" ++ decimal (n - 1)
place_point ds (negsuc m) =
    if ltb (m + 1) 6
    then codes "0." ++ zeros (m + 1) ++ ds
    else mantissa ds ++ codes "e-" ++ decimal (m + 2)

unfoldable pub or_zero : Text → Text
or_zero [] = 48 ∷ []
or_zero (c ∷ t) = c ∷ t

-- `_ecma_number_string`; it raises on a `special` one, see `in_profile`.
unfoldable pub ecma_number_string : Float → Text
ecma_number_string special = []
ecma_number_string zero_float = codes "0"
ecma_number_string (finite negative before after exp) =
    let raw = before ++ after in
    let stripped = lstrip0 raw in
    let n = point_position (length before) (length raw - length stripped) exp in
    (if negative then 45 ∷ [] else []) ++ place_point (or_zero (rstrip0 stripped)) n

-- The escapes of `json.dumps` with ensure_ascii False.
unfoldable pub escaped : ℕ → Text
escaped c =
    if c == 34
    then 92 ∷ 34 ∷ []
    else if c == 92
    then 92 ∷ 92 ∷ []
    else if c == 10
    then 92 ∷ b'n' ∷ []
    else if c == 13
    then 92 ∷ b'r' ∷ []
    else if c == 9
    then 92 ∷ b't' ∷ []
    else if c == 12
    then 92 ∷ b'f' ∷ []
    else if c == 8
    then 92 ∷ b'b' ∷ []
    else if ltb c 32
    then 92 ∷ b'u' ∷ 48 ∷ 48 ∷ hex_digit (c / 16) ∷ hex_digit (c % 16) ∷ []
    else c ∷ []

-- The text after the opening quote, the closing one included.
unfoldable pub escape_all : Text → Text
escape_all [] = 34 ∷ []
escape_all (c ∷ t) = escaped c ++ escape_all t

unfoldable pub quoted : Text → Text
quoted t = 34 ∷ escape_all t

unfoldable pub bool_text : Bool → Text
bool_text true = codes "true"
bool_text false = codes "false"

unfoldable mutual
  pub text_of : Json → Text
  text_of null = codes "null"
  text_of (bool b) = bool_text b
  text_of (int n) = int_text n
  text_of (float x) = ecma_number_string x
  text_of (str s) = quoted s
  text_of (arr xs) = 91 ∷ items_text xs
  text_of (obj fs) = 123 ∷ fields_text fs

  -- After the opening bracket, or the value before: the items, each after the first with its comma.
  pub items_text : Items → Text
  items_text no_items = 93 ∷ []
  items_text (item x xs) = text_of x ++ more_items_text xs

  pub more_items_text : Items → Text
  more_items_text no_items = 93 ∷ []
  more_items_text (item x xs) = 44 ∷ text_of x ++ more_items_text xs

  pub fields_text : Fields → Text
  fields_text no_fields = 125 ∷ []
  fields_text (field k v fs) = quoted k ++ 58 ∷ text_of v ++ more_fields_text fs

  pub more_fields_text : Fields → Text
  more_fields_text no_fields = 125 ∷ []
  more_fields_text (field k v fs) = 44 ∷ quoted k ++ 58 ∷ text_of v ++ more_fields_text fs

unfoldable pub float_in_profile : Float → Bool
float_in_profile special = false
float_in_profile _ = true

unfoldable mutual
  pub in_profile : Json → Bool
  in_profile (int n) = int_in_profile n
  in_profile (float x) = float_in_profile x
  in_profile (arr xs) = items_in_profile xs
  in_profile (obj fs) = fields_in_profile fs
  in_profile j = true

  pub items_in_profile : Items → Bool
  items_in_profile no_items = true
  items_in_profile (item x xs) = in_profile x && items_in_profile xs

  pub fields_in_profile : Fields → Bool
  fields_in_profile no_fields = true
  fields_in_profile (field k v fs) = in_profile v && fields_in_profile fs

-- `none` is the ValueError.
unfoldable pub jcs_dumps : Json → Option Text
jcs_dumps j = if in_profile (canonicalize j) then some (text_of (canonicalize j)) else none

-- `none` is the ValueError, or the UnicodeEncodeError of a lone surrogate.
unfoldable pub jcs_bytes : Json → Option Bytes
jcs_bytes j = elim (jcs_dumps j) [ none ↦ none | some t ↦ utf8 t ]
