-- ===== src/Karma/Settled.antt =====
-- argentum.py: the tables of actions and reports, around an action that was slashed.
use argentum_core.Base.{
  ℕ, ◌≡◌, refl, ◌∙◌, sym, ap, Bool, true, false, List, [], ◌∷◌, ◌++◌, some, String, arith, str_eq,
  str_eq_iff, if◌then◌else◌, Bool-cases, inl, inr,
}
use argentum_core.Sql.{find_where, count_where, update_where, find-holds, count-append}
use argentum_core.Karma.Store.{Status, slashed, Action, Report, KarmaDb}
use argentum_core.Karma.Actions.{action_is, set_status, set_verified}
use argentum_core.Karma.Attest.{verify_if}
use argentum_core.Karma.Contest.{confirm_reports, open_report_of}
use argentum_core.Karma.Slash.{IsSettled, find-update_any}

find-append :
    {R : Type 0} (p : R → Bool) (rs ts : List R) {r : R}
    → find_where p rs ≡ some r
    → find_where p (rs ++ ts) ≡ some r
find-append p [] ts e = cc
find-append p (s ∷ rs) ts {r} e = ground (arith, find-append p rs ts {r = r})

-- A change of the rows of another action.
other_row :
    (action id : String) (f : Action → Action) (rows : List Action) (rs : List Report)
    → ((a : Action) → (f a).id ≡ a.id)
    → str_eq id action ≡ false
    → IsSettled action rows rs
    → IsSettled action (update_where (action_is id) f rows) rs
other_row action id f rows rs keep other h = record {
  row = h.row;
  found =
      find-update_any (action_is action) (action_is id) f (λ a. ap (λ x. str_eq x action) (keep a))
        rows h.found
      ∙ ap (λ (b : Bool). some (if b then f h.row else h.row)) not_it;
  is_now = h.is_now;
  settled = h.settled;
}
  where
    holds : str_eq h.row.id action ≡ true
    holds = find-holds (action_is action) rows h.found

    not_it : str_eq h.row.id id ≡ false
    not_it = elim (Bool-cases (str_eq h.row.id id)) [
      | inl e ↦
          let at = (str_eq_iff h.row.id id).0 e in
          let it = (str_eq_iff h.row.id action).0 holds in
          let same : str_eq id action ≡ true = (str_eq_iff id action).1 (sym at ∙ it) in cc
      | inr e ↦ e
    ]

pub status-IsSettled :
    (action id : String) (st : Status) (rows : List Action) (rs : List Report)
    → str_eq id action ≡ false
    → IsSettled action rows rs
    → IsSettled action (set_status id st rows) rs
unfolding set_status
status-IsSettled action id st rows rs other h = other_row action id _ rows rs (λ a. refl) other h

pub verify_if-IsSettled :
    (b : Bool) (action : String) (a : Action) (now : ℕ) (k : KarmaDb)
    → str_eq a.id action ≡ false
    → IsSettled action k.actions k.reports
    → IsSettled action (verify_if b a now k).actions (verify_if b a now k).reports
unfolding verify_if set_verified
verify_if-IsSettled false action a now k other h = h
verify_if-IsSettled true action a now k other h =
    other_row action a.id _ k.actions k.reports (λ r. refl) other h

pub row_added :
    (action : String) (a : Action) (rows : List Action) (rs : List Report)
    → IsSettled action rows rs
    → IsSettled action (rows ++ a ∷ []) rs
row_added action a rows rs h = record {
  row = h.row;
  found = find-append (action_is action) rows (a ∷ []) h.found;
  is_now = h.is_now;
  settled = h.settled;
}

pub report_added :
    (action : String) (r : Report) (rows : List Action) (rs : List Report)
    → str_eq r.action_id action ≡ false
    → IsSettled action rows rs
    → IsSettled action rows (rs ++ r ∷ [])
report_added action r rows rs other h = record {
  row = h.row;
  found = h.found;
  is_now = h.is_now;
  settled = ground (arith, h.settled, count-append (open_report_of action) rs (r ∷ []));
}

confirm_reports-count :
    (action id : String) (now : ℕ) (rs : List Report)
    → count_where (open_report_of action) rs ≡ 0
    → count_where (open_report_of action) (confirm_reports id now rs) ≡ 0
unfolding confirm_reports
confirm_reports-count action id now [] e = refl
confirm_reports-count action id now (r ∷ rs) e =
    ground (arith, confirm_reports-count action id now rs)

pub reports_confirmed :
    (action id : String) (now : ℕ) (rows : List Action) (rs : List Report)
    → IsSettled action rows rs
    → IsSettled action rows (confirm_reports id now rs)
reports_confirmed action id now rows rs h = record {
  row = h.row;
  found = h.found;
  is_now = h.is_now;
  settled = confirm_reports-count action id now rs h.settled;
}

-- A row that is found is slashed, if it is the row of the action.
unfoldable pub Calm : String → Action → Type 0
Calm action a = str_eq a.id action ≡ true → a.status ≡ slashed

pub found-Calm :
    (action id : String) (rows : List Action) (rs : List Report) {a : Action}
    → IsSettled action rows rs
    → find_where (action_is id) rows ≡ some a
    → Calm action a
unfolding Calm
found-Calm action id rows rs {a} h found mine =
    let at : a.id ≡ id = (str_eq_iff a.id id).0 (find-holds (action_is id) rows found) in
    let it : a.id ≡ action = (str_eq_iff a.id action).0 mine in
    let same : find_where (action_is action) rows ≡ some a = rw (sym it ∙ at) found in
    let s = h.is_now in let f = h.found in cc

-- A guard that a slashed row does not pass keeps the action out.
pub guarded :
    (action : String) (a : Action) (p : Status → Bool)
    → p slashed ≡ false
    → Calm action a
    → p a.status ≡ true
    → str_eq a.id action ≡ false
unfolding Calm
guarded action a p shut calm pass = elim (Bool-cases (str_eq a.id action)) [
  | inl e ↦ let s = calm e in let q : p a.status ≡ false = ap p s ∙ shut in cc
  | inr e ↦ e
]
