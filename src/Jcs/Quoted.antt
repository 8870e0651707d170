-- ===== src/Jcs/Quoted.antt =====
-- Quoted texts, and where they end.
use argentum_core.Base.{ℕ, ◌≡◌, refl, sym, [], ◌∷◌, ◌++◌, arith}
use mathlib.Core.List.{append_assoc}
use argentum_core.Bytes.{hex_digit}
use argentum_core.Json.{Text}
use argentum_core.Jcs.{escaped, escape_all, quoted}

escaped-cut : (c d : ℕ) (u v : Text) → escaped c ++ u ≡ escaped d ++ v → (c ≡ d) × (u ≡ v)
unfolding escaped hex_digit
escaped-cut c d u v e = (ground arith, ground arith)

escaped-not_quote : (c : ℕ) (u v : Text) (e : escaped c ++ u ≡ 34 ∷ v) → ⊥
unfolding escaped
escaped-not_quote c u v e = ground arith

escape_all-cut : (s t u v : Text) → escape_all s ++ u ≡ escape_all t ++ v → (s ≡ t) × (u ≡ v)
unfolding escape_all
escape_all-cut [] [] u v e = (refl, cc)
escape_all-cut [] (d ∷ t) u v e =
    absurd (escaped-not_quote d (escape_all t ++ v) u (rw append_assoc at (sym e)))
escape_all-cut (c ∷ s) [] u v e =
    absurd (escaped-not_quote c (escape_all s ++ u) v (rw append_assoc at e))
escape_all-cut (c ∷ s) (d ∷ t) u v e =
    let h =
      escaped-cut c d (escape_all s ++ u) (escape_all t ++ v)
        (rw (append_assoc, append_assoc) at e) in
    let r = escape_all-cut s t u v h.1 in (cc (h.0, r.0), r.1)

pub quoted-cut : (s t u v : Text) → quoted s ++ u ≡ quoted t ++ v → (s ≡ t) × (u ≡ v)
unfolding quoted
quoted-cut s t u v e = escape_all-cut s t u v (cc)
