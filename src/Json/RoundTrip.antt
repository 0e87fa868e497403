-- ===== src/Json/RoundTrip.antt =====
-- The round trip: what the scanners of src/net/json.cpp read from an object that its writers wrote.
use mathlib.Core.Option
use droidcli.Common.{
  Bool, true, false, Option, none, some, List, [], ◌∷◌, ◌++◌, append_assoc, ◌≡◌, refl, ◌∙◌, ap,
  arith, Bytes, All, same, Bool-cases, inl, inr,
}
use droidcli.Json.{
  quote, escape_json_string, skip_blanks, find_value, read_value, quoted_value, bool_value,
  extract_json_string_field, extract_json_bool_field, string_found, bool_found,
}
use droidcli.Json.Skip.{IsName, Follows, at_comma, at_brace}
use droidcli.Json.Object.{
  Field, text, flag, number, key, value_text, render_object, lookup_field, IsField, behind,
  after-render_object, render_rest-Follows,
}

-- Reading an escaped value up to its closing quote gives the value back.
pub read_value-escape :
    (v rest : Bytes) → read_value (escape_json_string v ++ (quote ∷ rest)) false ≡ v
unfolding read_value escape_json_string
read_value-escape [] rest = refl
read_value-escape (c ∷ v) rest = ground (arith, read_value-escape v rest)

-- What each scanner reads from a field.
abbrev pub string_of : Option Field → Bytes
string_of (some (text k v)) = v
string_of _ = []

abbrev pub bool_of : Option Field → Option Bool
bool_of (some (flag k b)) = some b
bool_of _ = none

skip_blanks-Follows : (s : Bytes) → Follows s → skip_blanks s ≡ s
unfolding skip_blanks
skip_blanks-Follows _ (at_comma s) = refl
skip_blanks-Follows _ (at_brace s) = refl

pub skip_blanks-value_text :
    (f : Field) (s : Bytes)
    → IsField f
    → Follows s
    → skip_blanks (value_text f ++ s) ≡ value_text f ++ s
unfolding skip_blanks value_text
skip_blanks-value_text (text k v) s h w = refl
skip_blanks-value_text (flag k true) s h w = refl
skip_blanks-value_text (flag k false) s h w = refl
skip_blanks-value_text (number k []) s h w = skip_blanks-Follows s w
skip_blanks-value_text (number k (c ∷ ds)) s h w = ground (arith, h.1)

quoted_value-Follows : (s : Bytes) → Follows s → quoted_value s ≡ []
unfolding quoted_value
quoted_value-Follows _ (at_comma s) = refl
quoted_value-Follows _ (at_brace s) = refl

quoted_value-value_text :
    (f : Field) (s : Bytes)
    → IsField f
    → Follows s
    → quoted_value (value_text f ++ s) ≡ string_of (some f)
quoted_value-value_text (text k v) s h w =
    unfold quoted_value value_text in
    ap (λ t. read_value t false) (append_assoc (escape_json_string v) (quote ∷ []) s)
    ∙ read_value-escape v s
quoted_value-value_text (flag k true) s h w = unfold quoted_value value_text in refl
quoted_value-value_text (flag k false) s h w = unfold quoted_value value_text in refl
quoted_value-value_text (number k []) s h w = unfold value_text in quoted_value-Follows s w
quoted_value-value_text (number k (c ∷ ds)) s h w =
    unfold quoted_value value_text in ground (arith, h.1)

bool_value-Follows : (s : Bytes) → Follows s → bool_value s ≡ none
unfolding bool_value
bool_value-Follows _ (at_comma s) = refl
bool_value-Follows _ (at_brace s) = refl

bool_value-value_text :
    (f : Field) (s : Bytes)
    → IsField f
    → Follows s
    → bool_value (value_text f ++ s) ≡ bool_of (some f)
bool_value-value_text (text k v) s h w = unfold bool_value value_text in refl
bool_value-value_text (flag k true) s h w = unfold bool_value value_text in refl
bool_value-value_text (flag k false) s h w = unfold bool_value value_text in refl
bool_value-value_text (number k []) s h w = unfold value_text in bool_value-Follows s w
bool_value-value_text (number k (c ∷ ds)) s h w =
    unfold bool_value value_text in ground (arith, h.1)

-- The scanners on the text behind the key, for whatever reader comes after the blanks.
pub find_value-behind :
    (n : Bytes) (fs : List Field)
    → IsName n
    → All IsField fs
    → find_value (render_object fs) n 0 ≡ Option.map skip_blanks (behind n fs)
unfolding find_value
find_value-behind n fs h g = ap (Option.map skip_blanks) (after-render_object n fs h g)

string_behind :
    (n : Bytes) (fs : List Field)
    → All IsField fs
    → string_found (Option.map skip_blanks (behind n fs)) ≡ string_of (lookup_field n fs)
unfolding behind lookup_field
string_behind n [] g = refl
string_behind n (f ∷ fs) (g, gs) = elim (Bool-cases (same n (key f))) [
  | inl e ↦ rw e (
      ap quoted_value (skip_blanks-value_text f _ g (render_rest-Follows fs))
      ∙ quoted_value-value_text f _ g (render_rest-Follows fs))
  | inr e ↦ rw e (string_behind n fs gs)
]

bool_behind :
    (n : Bytes) (fs : List Field)
    → All IsField fs
    → bool_found (Option.map skip_blanks (behind n fs)) ≡ bool_of (lookup_field n fs)
unfolding behind lookup_field
bool_behind n [] g = refl
bool_behind n (f ∷ fs) (g, gs) = elim (Bool-cases (same n (key f))) [
  | inl e ↦ rw e (
      ap bool_value (skip_blanks-value_text f _ g (render_rest-Follows fs))
      ∙ bool_value-value_text f _ g (render_rest-Follows fs))
  | inr e ↦ rw e (bool_behind n fs gs)
]

-- Reading a string field of an object that the writers wrote gives the value of the first field of
-- that name, whatever bytes the values hold, and the empty string where that field is no string or
-- where there is none.
pub extract_string-render_object :
    (n : Bytes) (fs : List Field)
    → IsName n
    → All IsField fs
    → extract_json_string_field (render_object fs) n 0 ≡ string_of (lookup_field n fs)
unfolding extract_json_string_field
extract_string-render_object n fs h g =
    ap string_found (find_value-behind n fs h g) ∙ string_behind n fs g

-- Reading a Boolean field of such an object gives the flag of the first field of that name, and
-- reports a missing field where that field is no flag or where there is none.
pub extract_bool-render_object :
    (n : Bytes) (fs : List Field)
    → IsName n
    → All IsField fs
    → extract_json_bool_field (render_object fs) n 0 ≡ bool_of (lookup_field n fs)
unfolding extract_json_bool_field
extract_bool-render_object n fs h g =
    ap bool_found (find_value-behind n fs h g) ∙ bool_behind n fs g
