-- ===== src/Json.antt =====
-- The values that json and jcs.py pass around: Python's None, bool, int, float, str, list and dict.
-- A text is the list of its code points; a dict is the list of its entries in the order of insertion.
pub mod Equal
use argentum_core.Base.{ℕ, List, [], ◌∷◌, Bool, String}
use Prim.Native.String
use Prim.Native.Char.{code}

abbrev pub Text : Type 0
Text = List ℕ

-- The code points of a literal.
abbrev pub codes : String → Text
codes String.[] = []
codes (String.◌∷◌ c s) = code c ∷ codes s

pub data ℤ : Type 0 where
  pos : ℕ → ℤ
  negsuc : ℕ → ℤ

-- A float by what `repr(abs(x))` shows of it: the digits before and after the point, and the
-- exponent. `special` is NaN or an infinity; a zero of either sign is `zero_float`.
pub data Float : Type 0 where
  special zero_float : Float
  finite : Bool → List ℕ → List ℕ → ℤ → Float

mutual
  pub data Json : Type 0 where
    null : Json
    bool : Bool → Json
    int : ℤ → Json
    float : Float → Json
    str : Text → Json
    arr : Items → Json
    obj : Fields → Json

  pub data Items : Type 0 where
    no_items : Items
    item : Json → Items → Items

  pub data Fields : Type 0 where
    no_fields : Fields
    field : Text → Json → Fields → Fields
