-- ===== src/ActionRef/Printed.antt =====
-- action_ref.py: what `json.dumps` prints of a dict of strings, beside the text of jcs.py.
use argentum_core.Base.{◌≡◌, refl, ap, ◌∙◌, true, [], ◌∷◌, ◌++◌}
use mathlib.Core.List.{append_assoc}
use argentum_core.Json.{Text, obj}
use argentum_core.Jcs.{text_of, more_fields_text, fields_in_profile, in_profile}
use argentum_core.ActionRef.{StrDict, json_item, joined_items, json_dumps, as_fields}

joined_items-text :
    (x : Text × Text) (d : StrDict)
    → joined_items (x ∷ d) ++ 125 ∷ [] ≡ json_item x ++ more_fields_text (as_fields d)
unfolding joined_items more_fields_text as_fields json_item
joined_items-text x [] = refl
joined_items-text x ((k, v) ∷ d) =
    append_assoc (json_item x) (44 ∷ joined_items ((k, v) ∷ d)) (125 ∷ [])
    ∙ ap (λ t. json_item x ++ 44 ∷ t) (joined_items-text (k, v) d)

-- The two printers give one text.
pub json_dumps-text_of : (d : StrDict) → json_dumps d ≡ text_of (obj (as_fields d))
unfolding json_dumps text_of as_fields joined_items json_item
json_dumps-text_of [] = refl
json_dumps-text_of ((k, v) ∷ d) = ap (λ t. 123 ∷ t) (joined_items-text (k, v) d)

-- A dict of strings is in the profile.
pub as_fields-in_profile : (d : StrDict) → fields_in_profile (as_fields d) ≡ true
unfolding as_fields in_profile
as_fields-in_profile [] = refl
as_fields-in_profile ((k, v) ∷ d) = as_fields-in_profile d
