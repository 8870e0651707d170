-- ===== src/TrailHead/Made.antt =====
-- The entries that a producer without counters makes with `append_entry`.
use argentum_core.Base.{
  ℕ, ◌+◌, ◌≡◌, refl, sym, ◌∙◌, List, [], ◌∷◌, ◌++◌, Option, none, some, arith, length,
}
use argentum_core.Json.{Text, codes, pos, Json, Fields, int, str}
use argentum_core.TrailHead.{Setup, lookup, get, compute_head, last_entry, head_of, append_entry}
use argentum_core.TrailHead.Chain.{as_text, not_null-some}
use argentum_core.TrailHead.Checked.{committed}
use argentum_core.TrailHead.Log.{prior, prior-none, appended, dict_of}

-- A log whose entries have no counter.
pub data Plain (s : Setup) (agent : Text) : List Fields → Type 0 where
  start : Plain s agent []
  step :
      {log log' : List Fields}
      → Plain s agent log
      → (ref : Text) → append_entry s log agent ref none ≡ some log'
      → Plain s agent log'

-- An entry of append_entry with number k after the head p.
pub record IsMade (s : Setup) (agent : Text) (k : ℕ) (p : Option Json) (e : Fields) : Type 0 where
  pub head : Text
  pub of_agent : get (codes "agent_id") e ≡ some (str agent)
  pub of_seq : get (codes "seq") e ≡ some (int (pos k))
  pub of_prev : get (codes "prev_head") e ≡ p
  pub of_head : get (codes "head") e ≡ some (str head)
  pub of_counter : lookup (codes "agent_seq") e ≡ none
  pub made :
      compute_head s (some (str agent)) (pos k) (get (codes "action_ref") e) p none ≡ some head

unfoldable pub AllMade : Setup → Text → ℕ → Option Json → List Fields → Type 0
AllMade s agent k p [] = Unit
AllMade s agent k p (e ∷ es) =
    (x : IsMade s agent k p e) × AllMade s agent (k + 1) (some (str x.head)) es

AllMade-append :
    (s : Setup) (agent : Text) (k m : ℕ) (p : Option Json) (es : List Fields) (e : Fields)
    → AllMade s agent k p es
    → m ≡ k + length es
    → IsMade s agent m (prior p es) e
    → AllMade s agent k p (es ++ e ∷ [])
unfolding AllMade
AllMade-append s agent k m p [] e c q x = (renumbered (q ∙ ground arith) x, tt)
  where
    renumbered : m ≡ k → IsMade s agent m p e → IsMade s agent k p e
    renumbered q x = rw (← q) x
AllMade-append s agent k m p (f ∷ es) e (y, c) q x = (
  y,
  AllMade-append s agent (k + 1) m (some (str y.head)) es e c (ground (arith, q))
      (rw (not_null-some (lookup (codes "head") f) y.of_head) at x),
)

-- The first entries of a log are made as the log is.
pub AllMade-take :
    (s : Setup) (agent : Text) (k : ℕ) (p : Option Json) (es fs : List Fields)
    → AllMade s agent k p (es ++ fs)
    → AllMade s agent k p es
unfolding AllMade
AllMade-take s agent k p [] fs c = tt
AllMade-take s agent k p (e ∷ es) fs (x, c) =
    (x, AllMade-take s agent (k + 1) (some (str x.head)) es fs c)

dict_of-IsMade :
    (s : Setup) (agent : Text) (k : ℕ) (r : Text) (p : Option Text) (h : Text)
    → compute_head s (some (str agent)) (pos k) (some (str r)) (as_text p) none ≡ some h
    → IsMade s agent k (as_text p) (dict_of agent k r p none h)
dict_of-IsMade s agent k r none h d = record {
  head = h;
  of_agent = refl;
  of_seq = refl;
  of_prev = refl;
  of_head = refl;
  of_counter = refl;
  made = d;
}
dict_of-IsMade s agent k r (some p) h d = record {
  head = h;
  of_agent = refl;
  of_seq = refl;
  of_prev = refl;
  of_head = refl;
  of_counter = refl;
  made = d;
}

pub Plain-AllMade :
    {s : Setup} {agent : Text} {log : List Fields} → Plain s agent log → AllMade s agent 1 none log
unfolding AllMade
Plain-AllMade start = tt
Plain-AllMade {s = s} {agent = agent} (step {log = log} l ref e) =
    let (h, (eh, el)) = appended s log agent ref none e in
    let d =
      committed s agent (length log + 1) (some (str ref)) (head_of (last_entry log)) none eh in
    let x = dict_of-IsMade s agent (length log + 1) ref d.prev h (rw d.of_prev at eh) in
    let q : as_text d.prev ≡ prior none log = sym d.of_prev ∙ sym (prior-none log) in
    rw (el, d.of_prev)
      (AllMade-append s agent 1 (length log + 1) none log
        (dict_of agent (length log + 1) ref d.prev none h) (Plain-AllMade l) (omega arith)
        (place q x))
  where
    place :
        {k : ℕ} {p q : Option Json} {f : Fields}
        → p ≡ q
        → IsMade s agent k p f
        → IsMade s agent k q f
    place q x = rw (← q) x
