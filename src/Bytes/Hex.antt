-- ===== src/Bytes/Hex.antt =====
-- `bytes.hex` and `bytes.fromhex` of the language's library, and the digest function.
use argentum_core.Base.{
  ℕ, ◌≡◌, refl, ap, sym, ◌∙◌, Bool, true, false, List, [], ◌∷◌, arith, ltb, leb, ◌==◌,
  if◌then◌else◌, ◌&&◌, ◌||◌, Option, none, some, ◌+◌, ◌-◌, ◌*◌, ◌/◌, ◌%◌, ◌<◌, All, length,
}
use argentum_core.Bytes.Order.{Bytes}

-- The character of a digit below 16.
unfoldable pub hex_digit : ℕ → ℕ
hex_digit d = if ltb d 10 then d + 48 else d + 87

-- `b.hex()`
unfoldable pub to_hex : Bytes → List ℕ
unfolding hex_digit
to_hex [] = []
to_hex (b ∷ bs) = hex_digit (b / 16) ∷ hex_digit (b % 16) ∷ to_hex bs

-- The value of a digit in either case.
digit_value : ℕ → Option ℕ
digit_value c =
    if leb 48 c && leb c 57
    then some (c - 48)
    else if leb 97 c && leb c 102
    then some (c - 87)
    else if leb 65 c && leb c 70
    then some (c - 55)
    else none

-- ASCII white space, which `bytes.fromhex` skips between bytes.
is_space : ℕ → Bool
is_space c = c == 32 || leb 9 c && leb c 13

push_byte : Option ℕ → Option ℕ → Option Bytes → Option Bytes
push_byte (some hi) (some lo) (some bs) = some ((hi * 16 + lo) ∷ bs)
push_byte (some hi) (some lo) none = none
push_byte (some hi) none bs = none
push_byte none lo bs = none

-- `bytes.fromhex(s)`; `none` is its ValueError.
unfoldable pub from_hex : List ℕ → Option Bytes
unfolding digit_value is_space push_byte
from_hex [] = some []
from_hex (c ∷ []) = if is_space c then some [] else none
from_hex (c ∷ d ∷ s) = elim (is_space c) [
  | true ↦ from_hex (d ∷ s)
  | false ↦ push_byte (digit_value c) (digit_value d) (from_hex s)
]

abbrev pub IsByte : ℕ → Type 0
IsByte b = b < 256

digit_value-hex_digit : (d : ℕ) → d < 16 → digit_value (hex_digit d) ≡ some d
unfolding digit_value hex_digit
digit_value-hex_digit d h = ground arith

is_space-hex_digit : (d : ℕ) → is_space (hex_digit d) ≡ false
unfolding is_space hex_digit
is_space-hex_digit d = ground arith

-- What `hex` prints, `fromhex` reads back.
pub from_hex-to_hex : (bs : Bytes) → All IsByte bs → from_hex (to_hex bs) ≡ some bs
unfolding from_hex to_hex
from_hex-to_hex [] h = refl
from_hex-to_hex (b ∷ bs) h = ground (
  arith,
  from_hex-to_hex bs h.1,
  is_space-hex_digit (b / 16),
  digit_value-hex_digit (b / 16),
  digit_value-hex_digit (b % 16),
)

some_eq : {a b : Bytes} → some a ≡ some b → a ≡ b
some_eq e = cc

-- The hexadecimal form determines the bytes.
pub to_hex_injective : (a b : Bytes) → All IsByte a → All IsByte b → to_hex a ≡ to_hex b → a ≡ b
to_hex_injective a b ha hb e =
    some_eq (sym (from_hex-to_hex a ha) ∙ ap from_hex e ∙ from_hex-to_hex b hb)

-- `hashlib.sha256(b).digest()`: 32 bytes, whatever the input.
pub record Sha256 : Type 0 where
  pub digest : Bytes → Bytes
  pub length-digest : (b : Bytes) → length (digest b) ≡ 32
  pub digest-IsByte : (b : Bytes) → All IsByte (digest b)
