-- ===== src/ActionRef.antt =====
-- plugins/agt_evidence_anchor/action_ref.py: the domain of action references and their two derivations.
-- `strptime` is its calendar check: after the grammar, nothing else of it can fail.
pub mod Printed
pub mod Same
pub mod Versions
pub mod Domain
pub mod Agree
mod Tests
use argentum_core.Base.{
  ℕ, zero, suc, ◌+◌, ◌-◌, ◌*◌, ◌%◌, Bool, true, false, List, [], ◌∷◌, ◌++◌, Option, none, some, ltb,
  leb, ◌==◌, if◌then◌else◌, ◌&&◌, ◌||◌, not, length,
}
use argentum_core.Bytes.{Bytes, Sha256, bytes_lt, to_hex}
use argentum_core.Json.{Text, codes, Fields, str, no_fields, field}
use argentum_core.Jcs.{quoted}
use argentum_core.Utf8.{utf8}

pub record Preimage : Type 0 where
  pub agent_id : Text
  pub action_type : Text
  pub scope : Text
  pub timestamp : Text

-- OutOfProfileDomainError by its reason, with the field where several have it.
pub data Fault : Type 0 where
  not_ascii_agent_id not_ascii_action_type not_ascii_scope empty_scope epoch_out_of_range
        bad_grammar no_instant :
      Fault

unfoldable pub is_ascii : Text → Bool
is_ascii [] = true
is_ascii (c ∷ t) = ltb c 128 && is_ascii t

abbrev pub is_decimal : ℕ → Bool
is_decimal c = leb 48 c && leb c 57

-- _EPOCH_MS_RE after the first digit
unfoldable pub all_decimal : Text → Bool
all_decimal [] = true
all_decimal (c ∷ t) = is_decimal c && all_decimal t

abbrev pub is_epoch_text : Text → Bool
is_epoch_text [] = false
is_epoch_text (c ∷ t) = all_decimal (c ∷ t)

-- `int` of decimal digits, from the value of those before
unfoldable pub value_from : ℕ → Text → ℕ
value_from n [] = n
value_from n (c ∷ t) = value_from (n * 10 + (c - 48)) t

abbrev pub epoch_ms_min : ℕ
epoch_ms_min = 1577836800000

abbrev pub epoch_ms_max : ℕ
epoch_ms_max = 4102444800000

-- _TIMESTAMP_RE: a text against a pattern in which 0 stands for any digit.
abbrev pub pattern_of : Text
pattern_of = codes "0000-00-00T00:00:00.000Z"

pub fits : Text → Text → Bool
fits [] [] = true
fits (p ∷ ps) (c ∷ cs) = (if p == 48 then is_decimal c else c == p) && fits ps cs
fits _ _ = false

-- The number in `count` characters from `start` on.
pub number_at : ℕ → ℕ → Text → ℕ
number_at start count [] = 0
number_at zero zero (c ∷ t) = 0
number_at zero (suc n) (c ∷ t) = value_from 0 (first (suc n) (c ∷ t))
  where
    first : ℕ → Text → Text
    first zero t = []
    first (suc n) [] = []
    first (suc n) (c ∷ t) = c ∷ first n t
number_at (suc k) count (c ∷ t) = number_at k count t

pub is_leap : ℕ → Bool
is_leap y = y % 4 == 0 && (not (y % 100 == 0) || y % 400 == 0)

pub days_in : ℕ → ℕ → ℕ
days_in y m =
    if m == 2
    then (if is_leap y then 29 else 28)
    else if m == 4 || (m == 6 || (m == 9 || m == 11))
    then 30
    else 31

abbrev pub within : ℕ → ℕ → ℕ → Bool
within a b n = leb a n && leb n b

pub is_instant : Text → Bool
is_instant t =
    let y = number_at 0 4 t in
    let m = number_at 5 2 t in
    leb 1 y
    && (within 1 12 m
        && (within 1 (days_in y m) (number_at 8 2 t)
            && (leb (number_at 11 2 t) 23
                && (leb (number_at 14 2 t) 59 && leb (number_at 17 2 t) 59))))

-- `_validate_domain`; none where it returns.
unfoldable pub check_timestamp : Bool → Text → Option Fault
check_timestamp allow_epoch_ms t =
    if allow_epoch_ms && is_epoch_text t
    then (if within epoch_ms_min epoch_ms_max (value_from 0 t)
        then none
        else some epoch_out_of_range)
    else if not (fits pattern_of t)
    then some bad_grammar
    else if is_instant t
    then none
    else some no_instant

unfoldable pub validate_domain : Bool → Preimage → Option Fault
validate_domain allow_epoch_ms p =
    if not (is_ascii p.agent_id)
    then some not_ascii_agent_id
    else if not (is_ascii p.action_type)
    then some not_ascii_action_type
    else if not (is_ascii p.scope)
    then some not_ascii_scope
    else if length p.scope == 0
    then some empty_scope
    else check_timestamp allow_epoch_ms p.timestamp

-- A dict of strings, as the list of its items in the order of insertion.
abbrev pub StrDict : Type 0
StrDict = List (Text × Text)

-- `sorted(d.items())`, by code point; the keys differ.
pub insert_item : Text → Text → StrDict → StrDict
insert_item k v [] = (k, v) ∷ []
insert_item k v ((l, w) ∷ d) =
    if bytes_lt l k then (l, w) ∷ insert_item k v d else (k, v) ∷ (l, w) ∷ d

pub sort_items : StrDict → StrDict
sort_items [] = []
sort_items ((k, v) ∷ d) = insert_item k v (sort_items d)

-- `json.dumps` of a dict of strings with the separators "," and ":" and ensure_ascii False.
pub json_item : Text × Text → Text
json_item (k, v) = quoted k ++ 58 ∷ quoted v

pub joined_items : StrDict → Text
joined_items [] = []
joined_items (x ∷ []) = json_item x
joined_items (x ∷ y ∷ d) = json_item x ++ 44 ∷ joined_items (y ∷ d)

pub json_dumps : StrDict → Text
json_dumps d = 123 ∷ joined_items d ++ 125 ∷ []

pub jcs_encode : StrDict → Option Bytes
jcs_encode d = utf8 (json_dumps (sort_items d))

unfoldable pub payload : Preimage → StrDict
payload p =
    (codes "agent_id", p.agent_id)
    ∷ (codes "action_type", p.action_type)
    ∷ (codes "scope", p.scope)
    ∷ (codes "timestamp", p.timestamp)
    ∷ []

-- The same dict among the values of jcs.py.
unfoldable pub as_fields : StrDict → Fields
as_fields [] = no_fields
as_fields ((k, v) ∷ d) = field k (str v) (as_fields d)

pub data Derived : Type 0 where
  refused : Fault → Derived
  unencodable : Derived
  derived : Text → Derived

abbrev pub v2_domain_tag : Text
v2_domain_tag = codes "mycelium.action-ref:v2:"

pub compute_action_ref : Sha256 → Preimage → Derived
compute_action_ref sha p = elim (validate_domain false p) [
  | some f ↦ refused f
  | none ↦ elim (jcs_encode (payload p)) [
    | none ↦ unencodable
    | some b ↦ derived (to_hex (sha.digest b))
  ]
]

pub compute_action_ref_v2 : Sha256 → Preimage → Derived
compute_action_ref_v2 sha p = elim (validate_domain false p) [
  | some f ↦ refused f
  | none ↦ elim (jcs_encode (payload p)) [
    | none ↦ unencodable
    | some b ↦ derived (codes "v2:" ++ to_hex (sha.digest (v2_domain_tag ++ b)))
  ]
]

pub data Version : Type 0 where
  v1 v2 : Version

-- `[0-9a-f]`
abbrev pub is_lower_hex : ℕ → Bool
is_lower_hex c = within 48 57 c || within 97 102 c

pub all_lower_hex : Text → Bool
all_lower_hex [] = true
all_lower_hex (c ∷ t) = is_lower_hex c && all_lower_hex t

abbrev pub is_digest : Text → Bool
is_digest t = length t == 64 && all_lower_hex t

-- `_V2_RE.fullmatch`
pub is_v2 : Text → Bool
is_v2 (a ∷ b ∷ c ∷ t) = a == b'v' && (b == b'2' && (c == b':' && is_digest t))
is_v2 _ = false

-- none where it raises.
pub action_ref_version : Text → Option Version
action_ref_version t = if is_v2 t then some v2 else if is_digest t then some v1 else none
