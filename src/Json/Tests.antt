-- ===== src/Json/Tests.antt =====
-- Runs of src/net/json.cpp on small texts, and the round trips at concrete objects.
use droidcli.Common.{true, some, List, [], ◌∷◌, ◌≡◌, refl, codes, All, same, arith, negsuc}
use droidcli.Json.{
  found, out_of_range, escape_json_string, extract_json_string_field, extract_json_int_field,
}
use droidcli.Json.Skip.{named}
use droidcli.Json.Object.{Field, text, flag, number, render_object, lookup_field, IsField}
use droidcli.Json.RoundTrip.{string_of, extract_string-render_object}
use droidcli.Json.Decimal.{print_int}
use droidcli.Json.Number.{extract_int-render_object}

abbrev sample : List Field
sample =
    text (codes "id") (codes "a\"b\\c")
    ∷ flag (codes "ok") true
    ∷ number (codes "exit_code") (print_int (negsuc 6))
    ∷ text (codes "error") (codes "\"ok\":false")
    ∷ []

sample-IsField : All IsField sample
unfolding print_int
sample-IsField = (refl, (refl, ((refl, refl), (refl, tt))))

escaped_quote : escape_json_string (codes "a\"b") ≡ codes "a\\\"b"
unfolding escape_json_string
escaped_quote = refl

read_second :
    extract_json_string_field (codes "{\"a\":\"x\",\"b\": \"y\\nz\"}") (codes "b") 0 ≡ codes "y\nz"
unfolding extract_json_string_field
read_second = refl

read_negative : extract_json_int_field (codes "{\"n\": -12}") (codes "n") 0 ≡ found (negsuc 11)
unfolding extract_json_int_field
read_negative = refl

read_too_large :
    extract_json_int_field (codes "{\"n\":9223372036854775808}") (codes "n") 0 ≡ out_of_range
unfolding extract_json_int_field
read_too_large = refl

extract_string_example :
    extract_json_string_field (render_object sample) (codes "error") 0
    ≡ string_of (lookup_field (codes "error") sample)
extract_string_example =
    extract_string-render_object (codes "error") sample (named (codes "error") (cc) refl)
      sample-IsField

exit_code_there :
    lookup_field (codes "exit_code") sample
    ≡ some (number (codes "exit_code") (print_int (negsuc 6)))
unfolding lookup_field same
exit_code_there = refl

extract_int_example :
    extract_json_int_field (render_object sample) (codes "exit_code") 0 ≡ found (negsuc 6)
extract_int_example =
    extract_int-render_object (codes "exit_code") (codes "exit_code") (negsuc 6) sample
      (named (codes "exit_code") (cc) refl) sample-IsField (omega arith) exit_code_there
