-- ===== src/Json/Number.antt =====
-- The integer scanner on objects that the writers wrote.
use mathlib.Core.Option
use droidcli.Common.{
  some, List, [], ◌∷◌, ◌++◌, ◌≡◌, ◌∙◌, ap, Bytes, All, same, Bool-cases, inl, inr, ℤ, InInt64,
}
use droidcli.Json.{skip_blanks, found, int_value, int_found, extract_json_int_field}
use droidcli.Json.Skip.{IsName, Follows}
use droidcli.Json.Object.{
  Field, number, key, value_text, render_object, lookup_field, IsField, behind, render_rest-Follows,
}
use droidcli.Json.RoundTrip.{find_value-behind, skip_blanks-value_text}
use droidcli.Json.Decimal.{print_int, int_value-print_int}

number_value :
    (f : Field) (k : Bytes) (z : ℤ) (rest : Bytes)
    → InInt64 z
    → Follows rest
    → some f ≡ some (number k (print_int z))
    → int_value (value_text f ++ rest) ≡ found z
unfolding value_text
number_value f k z rest r w e =
    ap (λ o. int_value (value_text o ++ rest)) (Option.some-injective _ _ e)
    ∙ int_value-print_int z rest r w

int_behind :
    (n k : Bytes) (z : ℤ) (fs : List Field)
    → All IsField fs
    → InInt64 z
    → lookup_field n fs ≡ some (number k (print_int z))
    → int_found (Option.map skip_blanks (behind n fs)) ≡ found z
unfolding behind lookup_field
int_behind n k z [] g r h = cc
int_behind n k z (f ∷ fs) (g, gs) r h = elim (Bool-cases (same n (key f))) [
  | inl e ↦
      let hit : some f ≡ some (number k (print_int z)) = rw e at h in
      rw e (
        ap int_value (skip_blanks-value_text f _ g (render_rest-Follows fs))
        ∙ number_value f k z _ r (render_rest-Follows fs) hit)
  | inr e ↦
      let later : lookup_field n fs ≡ some (number k (print_int z)) = rw e at h in
      rw e (int_behind n k z fs gs r later)
]

-- Reading an integer field of an object that the writers wrote gives the `int64_t` that the first
-- field of that name was printed from.
pub extract_int-render_object :
    (n k : Bytes) (z : ℤ) (fs : List Field)
    → IsName n
    → All IsField fs
    → InInt64 z
    → lookup_field n fs ≡ some (number k (print_int z))
    → extract_json_int_field (render_object fs) n 0 ≡ found z
unfolding extract_json_int_field
extract_int-render_object n k z fs h g r e =
    ap int_found (find_value-behind n fs h g) ∙ int_behind n k z fs g r e
