-- ===== src/Bytes/Toy.antt =====
-- A small function in the place of SHA-256, for runs on concrete inputs.
use argentum_core.Base.{ℕ, zero, suc, ◌+◌, ◌*◌, ◌%◌, ◌≡◌, refl, List, [], ◌∷◌, arith, All, length}
use argentum_core.Bytes.{Bytes, Sha256, IsByte}

weigh : Bytes → ℕ
weigh [] = 7
weigh (b ∷ bs) = b + 3 * weigh bs

abbrev pub pad : ℕ → List ℕ → List ℕ
pad zero bs = bs
pad (suc n) bs = 0 ∷ pad n bs

unfoldable pub toy_digest : Bytes → Bytes
unfolding weigh
toy_digest b = weigh b % 256 ∷ pad 31 []

pub toy_length : (b : Bytes) → length (toy_digest b) ≡ 32
unfolding toy_digest
toy_length b = refl

pub toy_bytes : (b : Bytes) → All IsByte (toy_digest b)
unfolding toy_digest
toy_bytes b = omega arith

abbrev pub toy : Sha256
toy = record { digest = toy_digest; length-digest = toy_length; digest-IsByte = toy_bytes }

abbrev pub repeat : ℕ → ℕ → List ℕ
repeat zero c = []
repeat (suc n) c = c ∷ repeat n c
