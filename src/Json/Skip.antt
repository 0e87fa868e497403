-- ===== src/Json/Skip.antt =====
-- What `find` passes over in a text that `json_string_field` and its like have written: plain
-- bytes, other keys, and every escaped value.
use droidcli.Common.{
  ℕ, Bool, true, ◌&&◌, ◌||◌, none, some, [], ◌∷◌, ◌++◌, append_assoc, ◌≡◌, ◌≢◌, refl, ◌∙◌, sym,
  arith, Bytes, All, all, leb, ◌==◌, ==_iff, Bool-cases, inl, inr, ap₂, strip, after, after_hit,
  after_miss, strip_ne, strip-append,
}
use droidcli.Json.{quote, colon, needle, escape_json_string, is_digit}

-- The bytes of the field names that the program uses.
abbrev pub name_char : ℕ → Bool
name_char c = (leb b'a' c && leb c b'z') || (c == b'_') || is_digit c

-- A field name is one or more such bytes.
pub record IsName (name : Bytes) : Type 0 where
  pub nonempty : name ≢ []
  pub chars : all name_char name ≡ true

pub named : (n : Bytes) → n ≢ [] → all name_char n ≡ true → IsName n
named n h g = record { nonempty = h; chars = g }

-- What may stand behind a value: a comma or a closing brace.
pub data Follows : Bytes → Type 0 where
  at_comma : (s : Bytes) → Follows (b',' ∷ s)
  at_brace : (s : Bytes) → Follows (b'}' ∷ s)

abbrev NoQuote : Bytes → Type 0
NoQuote = All (λ c. c ≢ quote)

pub name-NoQuote : (n : Bytes) → all name_char n ≡ true → NoQuote n
name-NoQuote [] h = tt
name-NoQuote (c ∷ n) h = (ground arith, name-NoQuote n (ground arith))

-- Bytes that are no quotes are passed over.
pub after-plain :
    (name p s : Bytes) → NoQuote p → after (needle name) (p ++ s) ≡ after (needle name) s
after-plain name [] s h = refl
after-plain name (c ∷ p) s (hc, hp) =
    after_miss (needle name) c (p ++ s) (strip_ne quote c _ (p ++ s) (λ e. hc (sym e)))
    ∙ after-plain name p s hp

-- The rest of the needle does not match inside an escaped value: its bytes are no backslashes, so
-- the closing quote that it wants would have to be the end of the value.
strip-escaped :
    (n v rest : Bytes)
    → all name_char n ≡ true
    → Follows rest
    → strip (n ++ (quote ∷ colon ∷ [])) (escape_json_string v ++ (quote ∷ rest)) ≡ none
unfolding strip escape_json_string
strip-escaped [] [] _ h (at_comma s) = refl
strip-escaped [] [] _ h (at_brace s) = refl
strip-escaped [] (c ∷ v) rest h f = ground arith
strip-escaped (m ∷ n) [] rest h f = ground arith
strip-escaped (m ∷ n) (c ∷ v) rest h f = ground (arith, strip-escaped n v rest)

-- A name does not begin like what follows a value.
strip-Follows :
    (n rest : Bytes)
    → all name_char n ≡ true
    → Follows rest
    → strip (n ++ (quote ∷ colon ∷ [])) rest ≡ none
unfolding strip
strip-Follows [] _ h (at_comma s) = refl
strip-Follows [] _ h (at_brace s) = refl
strip-Follows (m ∷ n) _ h (at_comma s) = ground arith
strip-Follows (m ∷ n) _ h (at_brace s) = ground arith

after-escaped :
    (n v rest : Bytes)
    → all name_char n ≡ true
    → Follows rest
    → after (needle n) (escape_json_string v ++ (quote ∷ rest)) ≡ after (needle n) rest
unfolding escape_json_string after
after-escaped n [] rest h f = ground (arith, strip-Follows n rest h f)
after-escaped n (c ∷ v) rest h f =
    ground (arith, after-escaped n v rest h f, strip-escaped n v rest h f)

-- A quoted value is passed over, whatever it holds.
pub after-value :
    (n v rest : Bytes)
    → all name_char n ≡ true
    → Follows rest
    → after (needle n) (quote ∷ (escape_json_string v ++ (quote ∷ rest))) ≡ after (needle n) rest
unfolding after
after-value n v rest h f = ground (arith, strip-escaped n v rest h f, after-escaped n v rest h f)

-- Another key does not match.
strip-key :
    (n k rest : Bytes)
    → all name_char n ≡ true
    → all name_char k ≡ true
    → n ≢ k
    → strip (n ++ (quote ∷ colon ∷ [])) (k ++ (quote ∷ rest)) ≡ none
unfolding strip
strip-key [] [] rest h g d = absurd (d refl)
strip-key [] (c ∷ k) rest h g d = ground arith
strip-key (m ∷ n) [] rest h g d = ground arith
strip-key (m ∷ n) (c ∷ k) rest h g d = elim (Bool-cases (m == c)) [
  | inl e ↦
      rw e
        (strip-key n k rest (ground arith) (ground arith) (λ p. d (ap₂ ◌∷◌ ((==_iff m c).0 e) p)))
  | inr e ↦ rw e
]

strip-colon : (n rest : Bytes) → IsName n → strip (n ++ (quote ∷ colon ∷ [])) (colon ∷ rest) ≡ none
unfolding strip
strip-colon [] rest h = absurd (h.nonempty refl)
strip-colon (m ∷ n) rest h = ground (arith, h.chars)

pub after-key :
    (n k rest : Bytes)
    → IsName n
    → all name_char k ≡ true
    → n ≢ k
    → after (needle n) (quote ∷ (k ++ (quote ∷ colon ∷ rest))) ≡ after (needle n) rest
after-key n k rest h g d =
    after_miss (needle n) quote _ (strip_quote _ (strip-key n k _ h.chars g d))
    ∙ after-plain n k _ (name-NoQuote k g)
    ∙ after_miss (needle n) quote _ (strip_quote _ (strip-colon n rest h))
    ∙ after-plain n (colon ∷ []) rest (cc, tt)
  where
    strip_quote :
        (s : Bytes)
        → strip (n ++ (quote ∷ colon ∷ [])) s ≡ none
        → strip (needle n) (quote ∷ s) ≡ none
    strip_quote s e = unfold strip in e

-- The key that is looked for is found.
pub after-hit :
    (n rest : Bytes) → after (needle n) (quote ∷ (n ++ (quote ∷ colon ∷ rest))) ≡ some rest
after-hit n rest = after_hit (needle n) _ rest (
    unfold strip in
    rw (← append_assoc n (quote ∷ colon ∷ []) rest) (strip-append (n ++ (quote ∷ colon ∷ [])) rest))
