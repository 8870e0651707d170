-- ===== src/Utf8.antt =====
-- `str.encode("utf-8")` and `str.encode("utf-16-be", "surrogatepass")` of Python's library.
use argentum_core.Base.{
  ℕ, ◌+◌, ◌-◌, ◌/◌, ◌%◌, ◌≡◌, refl, Bool, true, false, [], ◌∷◌, ◌++◌, Option, none, some, ltb, leb,
  if◌then◌else◌, ◌&&◌, arith, sym,
}
use argentum_core.Bytes.{Bytes}
use argentum_core.Json.{Text}

unfoldable pub utf8_char : ℕ → Bytes
utf8_char c =
    if ltb c 0x80
    then c ∷ []
    else if ltb c 0x800
    then (c / 64 + 0xc0) ∷ (c % 64 + 0x80) ∷ []
    else if ltb c 0x10000
    then (c / 4096 + 0xe0) ∷ (c / 64 % 64 + 0x80) ∷ (c % 64 + 0x80) ∷ []
    else (c / 262144 + 0xf0) ∷ (c / 4096 % 64 + 0x80) ∷ (c / 64 % 64 + 0x80) ∷ (c % 64 + 0x80) ∷ []

unfoldable pub utf8_bytes : Text → Bytes
utf8_bytes [] = []
utf8_bytes (c ∷ t) = utf8_char c ++ utf8_bytes t

unfoldable pub has_surrogate : Text → Bool
has_surrogate [] = false
has_surrogate (c ∷ t) = if leb 0xd800 c && ltb c 0xe000 then true else has_surrogate t

-- A lone surrogate raises UnicodeEncodeError.
unfoldable pub utf8 : Text → Option Bytes
utf8 t = if has_surrogate t then none else some (utf8_bytes t)

unfoldable pub utf16_be_char : ℕ → Bytes
utf16_be_char c =
    if ltb c 0x10000
    then c / 256 ∷ c % 256 ∷ []
    else let d = c - 0x10000 in
      (d / 262144 + 0xd8) ∷ d / 1024 % 256 ∷ (d % 1024 / 256 + 0xdc) ∷ d % 256 ∷ []

unfoldable pub utf16_be : Text → Bytes
utf16_be [] = []
utf16_be (c ∷ t) = utf16_be_char c ++ utf16_be t

-- No character's bytes begin those of another.
utf8_char-cut : (c d : ℕ) (u v : Bytes) → utf8_char c ++ u ≡ utf8_char d ++ v → (c ≡ d) × (u ≡ v)
unfolding utf8_char
utf8_char-cut c d u v e = (ground arith, ground arith)

utf8_char-nonempty : (c : ℕ) (u : Bytes) (e : utf8_char c ++ u ≡ []) → ⊥
unfolding utf8_char
utf8_char-nonempty c u e = ground arith

pub utf8_bytes-injective : (s t : Text) → utf8_bytes s ≡ utf8_bytes t → s ≡ t
unfolding utf8_bytes
utf8_bytes-injective [] [] e = refl
utf8_bytes-injective [] (d ∷ t) e = absurd (utf8_char-nonempty d (utf8_bytes t) (sym e))
utf8_bytes-injective (c ∷ s) [] e = absurd (utf8_char-nonempty c (utf8_bytes s) e)
utf8_bytes-injective (c ∷ s) (d ∷ t) e =
    let h = utf8_char-cut c d (utf8_bytes s) (utf8_bytes t) e in
    cc (h.0, utf8_bytes-injective s t h.1)
