-- ===== src/Wire/Numbers.antt =====
-- The numbers in a head: `std::atoi` reads what `std::to_string` writes.
use mathlib.Core.List
use mathlib.Core.List.{reverse}
use droidcli.Common.{ℕ, true, [], ◌∷◌, ◌++◌, ◌≡◌, refl, ◌∙◌, ap, arith, Bytes, all, All, pos}
use droidcli.Json.{is_digit, leading_digits, digits_value}
use droidcli.Json.Decimal.{decimal, value-decimal, all-decimal}
use droidcli.Wire.{skip_space, signed_value, atoi}
use droidcli.Wire.Server.{skip_padding, trim_padding}
use droidcli.Wire.Heads.{InLine}

all_append :
    (s t : Bytes) → all is_digit s ≡ true → all is_digit t ≡ true → all is_digit (s ++ t) ≡ true
all_append [] t h g = g
all_append (c ∷ s) t h g = ground (arith, all_append s t)

all-reverse : (s : Bytes) → all is_digit s ≡ true → all is_digit (reverse s) ≡ true
all-reverse [] h = refl
all-reverse (c ∷ s) h =
    ap (all is_digit) (List.reverse-cons c s)
    ∙ all_append (reverse s) (c ∷ []) (all-reverse s (ground arith)) (ground arith)

skip_padding-digits : (ds : Bytes) → all is_digit ds ≡ true → skip_padding ds ≡ ds
unfolding skip_padding
skip_padding-digits [] h = refl
skip_padding-digits (c ∷ ds) h = ground arith

pub trim_padding-digits : (ds : Bytes) → all is_digit ds ≡ true → trim_padding (b' ' ∷ ds) ≡ ds
unfolding trim_padding
trim_padding-digits ds h =
    ap (λ t. reverse (skip_padding (reverse t))) (unfold skip_padding in skip_padding-digits ds h)
    ∙ ap reverse (skip_padding-digits (reverse ds) (all-reverse ds h))
    ∙ List.reverse-reverse ds

skip_space-digits : (ds : Bytes) → all is_digit ds ≡ true → skip_space ds ≡ ds
unfolding skip_space
skip_space-digits [] h = refl
skip_space-digits (c ∷ ds) h = ground arith

leading_digits-digits : (ds : Bytes) → all is_digit ds ≡ true → leading_digits ds ≡ ds
unfolding leading_digits
leading_digits-digits [] h = refl
leading_digits-digits (c ∷ ds) h = ground (arith, leading_digits-digits ds)

signed_value-digits :
    (ds : Bytes) → all is_digit ds ≡ true → signed_value ds ≡ pos (digits_value 0 ds)
unfolding signed_value
signed_value-digits [] h = unfold digits_value in refl
signed_value-digits (c ∷ ds) h = ground (arith, leading_digits-digits (c ∷ ds))

pub atoi-decimal : (n : ℕ) → atoi (decimal n) ≡ pos n
unfolding atoi
atoi-decimal n =
    ap signed_value (skip_space-digits (decimal n) (all-decimal n))
    ∙ signed_value-digits (decimal n) (all-decimal n)
    ∙ ap pos (value-decimal n)

-- With the blank behind the colon.
pub atoi-blank_decimal : (n : ℕ) → atoi (b' ' ∷ decimal n) ≡ pos n
unfolding atoi
atoi-blank_decimal n = unfold skip_space in atoi-decimal n

pub digits-InLine : (ds : Bytes) → all is_digit ds ≡ true → All InLine ds
digits-InLine [] h = tt
digits-InLine (c ∷ ds) h = ((ground arith, ground arith), digits-InLine ds (ground arith))
