-- ===== src/Json/Decimal.antt =====
-- Decimal numbers: `std::to_string` and `stream << n` of an `int64_t`, and their round trip through
-- the integer scanner. The fuel of the printing loop is the number and one more, which is enough
-- since each round divides by ten.
use droidcli.Common.{
  ℕ, zero, suc, ◌+◌, ◌/◌, ◌%◌, ◌<◌, Bool, true, false, [], ◌∷◌, ◌++◌, ◌≡◌, refl, ◌∙◌, arith, Bytes,
  all, is_empty, ltb, if◌then◌else◌, ℤ, pos, negsuc, InInt64,
}
use droidcli.Json.{is_digit, leading_digits, digits_value, found, stoll, signed_digits, int_value}
use droidcli.Json.Skip.{Follows, at_comma, at_brace}
use droidcli.Json.Object.{number_char}

unfoldable pub to_digits : ℕ → ℕ → Bytes → Bytes
to_digits zero n acc = acc
to_digits (suc f) n acc =
    let longer = to_digits f (n / 10) ((b'0' + n % 10) ∷ acc) in
    if ltb n 10 then (b'0' + n) ∷ acc else longer

unfoldable pub decimal : ℕ → Bytes
unfolding to_digits
decimal n = to_digits (suc n) n []

unfoldable pub print_int : ℤ → Bytes
unfolding decimal
print_int (pos n) = decimal n
print_int (negsuc n) = b'-' ∷ decimal (suc n)

value-to_digits :
    (f n : ℕ) (acc : Bytes) → n < f → digits_value 0 (to_digits f n acc) ≡ digits_value n acc
unfolding to_digits digits_value
value-to_digits zero n acc h = absurd (omega arith)
value-to_digits (suc f) n acc h = ground (arith, value-to_digits f (n / 10) ((b'0' + n % 10) ∷ acc))

all-to_digits :
    (f n : ℕ) (acc : Bytes) → all is_digit acc ≡ true → all is_digit (to_digits f n acc) ≡ true
unfolding to_digits
all-to_digits zero n acc h = h
all-to_digits (suc f) n acc h = ground (arith, all-to_digits f (n / 10) ((b'0' + n % 10) ∷ acc))

to_digits-ne-nil :
    (f n : ℕ) (acc : Bytes) → is_empty acc ≡ false → is_empty (to_digits f n acc) ≡ false
unfolding to_digits
to_digits-ne-nil zero n acc h = h
to_digits-ne-nil (suc f) n acc h =
    ground (arith, to_digits-ne-nil f (n / 10) ((b'0' + n % 10) ∷ acc))

pub value-decimal : (n : ℕ) → digits_value 0 (decimal n) ≡ n
unfolding decimal digits_value
value-decimal n = value-to_digits (suc n) n [] (omega arith)

pub all-decimal : (n : ℕ) → all is_digit (decimal n) ≡ true
unfolding decimal
all-decimal n = all-to_digits (suc n) n [] refl

pub decimal-ne-nil : (n : ℕ) → is_empty (decimal n) ≡ false
unfolding decimal to_digits
decimal-ne-nil n = ground (arith, to_digits-ne-nil n (n / 10) ((b'0' + n % 10) ∷ []))

leading_digits-all :
    (ds rest : Bytes) → all is_digit ds ≡ true → Follows rest → leading_digits (ds ++ rest) ≡ ds
unfolding leading_digits
leading_digits-all [] _ h (at_comma s) = refl
leading_digits-all [] _ h (at_brace s) = refl
leading_digits-all (c ∷ ds) rest h w = ground (arith, leading_digits-all ds rest)

-- A digit is no minus sign.
int_value-digits :
    (ds rest : Bytes)
    → all is_digit ds ≡ true
    → is_empty ds ≡ false
    → int_value (ds ++ rest) ≡ signed_digits false (ds ++ rest)
unfolding int_value
int_value-digits [] rest h e = cc
int_value-digits (c ∷ ds) rest h e = ground arith

signed_digits-decimal :
    (b : Bool) (n : ℕ) (rest : Bytes)
    → Follows rest
    → signed_digits b (decimal n ++ rest) ≡ stoll b (decimal n)
unfolding signed_digits
signed_digits-decimal b n rest w =
    rw (leading_digits-all (decimal n) rest (all-decimal n) w) (rw (decimal-ne-nil n))

stoll-true :
    (ds : Bytes) (n : ℕ)
    → digits_value 0 ds ≡ suc n
    → n < 9223372036854775808
    → stoll true ds ≡ found (negsuc n)
unfolding stoll
stoll-true ds n e h = rw e (ground arith)

stoll-false :
    (ds : Bytes) (n : ℕ)
    → digits_value 0 ds ≡ n
    → n < 9223372036854775808
    → stoll false ds ≡ found (pos n)
unfolding stoll
stoll-false ds n e h = rw e (ground arith)

-- Every `int64_t` is read back from its print, in front of a comma or a brace.
pub int_value-print_int :
    (z : ℤ) (rest : Bytes) → InInt64 z → Follows rest → int_value (print_int z ++ rest) ≡ found z
int_value-print_int (pos n) rest h w =
    unfold print_int in
    int_value-digits (decimal n) rest (all-decimal n) (decimal-ne-nil n)
    ∙ signed_digits-decimal false n rest w
    ∙ stoll-false (decimal n) n (value-decimal n) (omega arith)
int_value-print_int (negsuc n) rest h w =
    unfold print_int int_value in
    signed_digits-decimal true (suc n) rest w
    ∙ stoll-true (decimal (suc n)) n (value-decimal (suc n)) (omega arith)

all_number : (ds : Bytes) → all is_digit ds ≡ true → all number_char ds ≡ true
all_number [] h = refl
all_number (c ∷ ds) h = ground (arith, all_number ds)

-- What is printed is made of digits and a sign.
pub print_int-all : (z : ℤ) → all number_char (print_int z) ≡ true
unfolding print_int
print_int-all (pos n) = all_number (decimal n) (all-decimal n)
print_int-all (negsuc n) = all_number (decimal (suc n)) (all-decimal (suc n))
