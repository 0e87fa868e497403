-- ===== src/Json.antt =====
-- src/net/json.cpp: the hand-rolled JSON writer and the field scanners. A text is a list of bytes,
-- and a cursor into it is the text that is left to read.
pub mod Skip
pub mod Object
pub mod RoundTrip
pub mod Decimal
pub mod Number
pub mod Brackets
mod Tests
use mathlib.Core.Option
use droidcli.Common.{
  ℕ, zero, suc, ◌+◌, ◌-◌, ◌*◌, ◌/◌, ◌%◌, Bool, true, false, ◌&&◌, ◌||◌, Option, none, some, List,
  [], ◌∷◌, ◌++◌, Bytes, codes, same, strip, after, drop, is_empty, ltb, leb, ◌==◌, if◌then◌else◌, ℤ,
  pos, negsuc, pos_part, neg_part, sub_ℕ,
}

abbrev pub quote : ℕ
quote = b'"'

abbrev pub backslash : ℕ
backslash = b'\\'

abbrev pub colon : ℕ
colon = b':'

abbrev pub comma : ℕ
comma = b','

-- one round of the loop of `escape_json_string`
unfoldable pub escape_char : ℕ → Bytes
escape_char c =
    if c == backslash
    then backslash ∷ backslash ∷ []
    else if c == quote
    then backslash ∷ quote ∷ []
    else if c == 10
    then backslash ∷ b'n' ∷ []
    else if c == 13
    then backslash ∷ b'r' ∷ []
    else if c == 9
    then backslash ∷ b't' ∷ []
    else c ∷ []

unfoldable pub escape_json_string : Bytes → Bytes
unfolding escape_char
escape_json_string [] = []
escape_json_string (c ∷ s) = escape_char c ++ escape_json_string s

unfoldable pub json_string_field : Bytes → Bytes → Bytes
json_string_field key value =
    quote ∷ (key ++ (quote ∷ colon ∷ quote ∷ (escape_json_string value ++ (quote ∷ []))))

abbrev pub bool_text : Bool → Bytes
bool_text true = codes "true"
bool_text false = codes "false"

unfoldable pub json_bool_field : Bytes → Bool → Bytes
json_bool_field key value = quote ∷ (key ++ (quote ∷ colon ∷ bool_text value))

-- `"name":`
abbrev pub needle : Bytes → Bytes
needle name = quote ∷ (name ++ (quote ∷ colon ∷ []))

unfoldable pub skip_blanks : Bytes → Bytes
skip_blanks [] = []
skip_blanks (c ∷ s) = elim (c == b' ' || c == 9) [ true ↦ skip_blanks s | false ↦ c ∷ s ]

-- where the value of the first field of that name begins, at or after `search_from`
unfoldable pub find_value : Bytes → Bytes → ℕ → Option Bytes
unfolding skip_blanks after
find_value json name search_from =
    Option.map skip_blanks (after (needle name) (drop search_from json))

unfoldable pub unescape_char : ℕ → ℕ
unescape_char c = if c == b'n' then 10 else if c == b'r' then 13 else if c == b't' then 9 else c

-- The loop over a quoted value; the flag says that a backslash was just read. A backslash that
-- ends the text stands for itself.
unfoldable pub read_value : Bytes → Bool → Bytes
unfolding unescape_char
read_value [] false = []
read_value [] true = backslash ∷ []
read_value (c ∷ s) true = unescape_char c ∷ read_value s false
read_value (c ∷ s) false = elim (c == backslash) [
  | true ↦ read_value s true
  | false ↦ elim (c == quote) [ true ↦ [] | false ↦ c ∷ read_value s false ]
]

unfoldable pub quoted_value : Bytes → Bytes
unfolding read_value
quoted_value [] = []
quoted_value (c ∷ s) = if c == quote then read_value s false else []

abbrev pub string_found : Option Bytes → Bytes
string_found none = []
string_found (some s) = quoted_value s

unfoldable pub extract_json_string_field : Bytes → Bytes → ℕ → Bytes
unfolding find_value quoted_value
extract_json_string_field json name search_from = string_found (find_value json name search_from)

unfoldable pub bool_value : Bytes → Option Bool
unfolding strip
bool_value s = elim (strip (codes "true") s) [
  | some _ ↦ some true
  | none ↦ elim (strip (codes "false") s) [ some _ ↦ some false | none ↦ none ]
]

-- `none` is the return value false, which leaves `out_value` alone.
abbrev pub bool_found : Option Bytes → Option Bool
bool_found none = none
bool_found (some s) = bool_value s

unfoldable pub extract_json_bool_field : Bytes → Bytes → ℕ → Option Bool
unfolding find_value bool_value
extract_json_bool_field json name search_from = bool_found (find_value json name search_from)

abbrev pub is_digit : ℕ → Bool
is_digit c = leb b'0' c && leb c b'9'

unfoldable pub leading_digits : Bytes → Bytes
leading_digits [] = []
leading_digits (c ∷ s) = elim (is_digit c) [ true ↦ c ∷ leading_digits s | false ↦ [] ]

unfoldable pub digits_value : ℕ → Bytes → ℕ
digits_value n [] = n
digits_value n (c ∷ s) = digits_value (n * 10 + (c - b'0')) s

-- `missing` is the return value false. `std::stoll` throws where the number is no `int64_t`.
pub data IntField : Type 0 where
  missing : IntField
  found : ℤ → IntField
  out_of_range : IntField

abbrev int64_limit : ℕ
int64_limit = 9223372036854775808

-- `std::stoll` on a sign and digits
unfoldable pub stoll : Bool → Bytes → IntField
unfolding digits_value
stoll true ds =
    let n = digits_value 0 ds in if leb n int64_limit then found (sub_ℕ 0 n) else out_of_range
stoll false ds =
    let n = digits_value 0 ds in if ltb n int64_limit then found (pos n) else out_of_range

unfoldable pub signed_digits : Bool → Bytes → IntField
unfolding stoll leading_digits
signed_digits negative s =
    let ds = leading_digits s in if is_empty ds then missing else stoll negative ds

unfoldable pub int_value : Bytes → IntField
unfolding signed_digits
int_value [] = missing
int_value (c ∷ s) = if c == b'-' then signed_digits true s else signed_digits false (c ∷ s)

abbrev pub int_found : Option Bytes → IntField
int_found none = missing
int_found (some s) = int_value s

unfoldable pub extract_json_int_field : Bytes → Bytes → ℕ → IntField
unfolding find_value int_value
extract_json_int_field json name search_from = int_found (find_value json name search_from)
