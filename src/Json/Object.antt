-- ===== src/Json/Object.antt =====
-- Objects as the program writes them, field by field, and the round trip through the scanners.
use droidcli.Common.{
  ℕ, Bool, true, false, ◌||◌, Option, none, some, List, [], ◌∷◌, ◌++◌, append_assoc, ◌≡◌, ◌≢◌, refl,
  ◌∙◌, ap, arith, Bytes, codes, concat, All, all, ◌==◌, same, same_iff, strip, after, if◌then◌else◌,
}
use droidcli.Json.{quote, colon, needle, escape_json_string, bool_text, is_digit}
use droidcli.Json.Skip.{
  name_char, IsName, Follows, at_comma, at_brace, after-plain, after-value, after-key, after-hit,
}

-- A field of an object that the program writes.
pub data Field : Type 0 where
  text : (key value : Bytes) → Field
  flag : (key : Bytes) (value : Bool) → Field
  number : (key digits : Bytes) → Field

unfoldable pub key : Field → Bytes
key (text k v) = k
key (flag k b) = k
key (number k ds) = k

unfoldable pub value_text : Field → Bytes
value_text (text k v) = quote ∷ (escape_json_string v ++ (quote ∷ []))
value_text (flag k b) = bool_text b
value_text (number k ds) = ds

-- `"key":value`
unfoldable pub render_field : Field → Bytes
unfolding key value_text
render_field f = quote ∷ (key f ++ (quote ∷ colon ∷ value_text f))

-- The fields behind the first one, each behind a comma, and the closing brace.
unfoldable pub render_rest : List Field → Bytes
unfolding render_field
render_rest [] = b'}' ∷ []
render_rest (f ∷ fs) = b',' ∷ (render_field f ++ render_rest fs)

unfoldable pub render_object : List Field → Bytes
unfolding render_rest
render_object [] = b'{' ∷ b'}' ∷ []
render_object (f ∷ fs) = b'{' ∷ (render_field f ++ render_rest fs)

unfoldable pub lookup_field : Bytes → List Field → Option Field
unfolding key
lookup_field name [] = none
lookup_field name (f ∷ fs) = if same name (key f) then some f else lookup_field name fs

-- The pieces in which the program writes an object: a brace, the fields with a comma between two,
-- and a brace.
abbrev pub pieces_rest : List Field → List Bytes
pieces_rest [] = codes "}" ∷ []
pieces_rest (f ∷ fs) = codes "," ∷ render_field f ∷ pieces_rest fs

abbrev pub pieces : List Field → List Bytes
pieces [] = codes "{" ∷ codes "}" ∷ []
pieces (f ∷ fs) = codes "{" ∷ render_field f ∷ pieces_rest fs

concat-pieces_rest : (fs : List Field) → concat (pieces_rest fs) ≡ render_rest fs
unfolding render_rest
concat-pieces_rest [] = refl
concat-pieces_rest (f ∷ fs) = ap (λ s. b',' ∷ (render_field f ++ s)) (concat-pieces_rest fs)

-- Written piece by piece, the object is `render_object`.
pub concat-pieces : (fs : List Field) → concat (pieces fs) ≡ render_object fs
unfolding render_object
concat-pieces [] = refl
concat-pieces (f ∷ fs) = ap (λ s. b'{' ∷ (render_field f ++ s)) (concat-pieces_rest fs)

-- Keys are names, and a number is spelled by digits and a sign.
abbrev pub number_char : ℕ → Bool
number_char c = is_digit c || (c == b'-')

abbrev pub IsField : Field → Type 0
IsField (text k v) = all name_char k ≡ true
IsField (flag k b) = all name_char k ≡ true
IsField (number k ds) = (all name_char k ≡ true) × (all number_char ds ≡ true)

pub IsField-key : (f : Field) → IsField f → all name_char (key f) ≡ true
unfolding key
IsField-key (text k v) h = h
IsField-key (flag k b) h = h
IsField-key (number k ds) h = h.0

pub render_rest-Follows : (fs : List Field) → Follows (render_rest fs)
unfolding render_rest
render_rest-Follows [] = at_brace []
render_rest-Follows (f ∷ fs) = at_comma _

digits-NoQuote : (ds : Bytes) → all number_char ds ≡ true → All (λ c. c ≢ quote) ds
digits-NoQuote [] h = tt
digits-NoQuote (c ∷ ds) h = (ground arith, digits-NoQuote ds (ground arith))

bool_text-NoQuote : (b : Bool) → All (λ c. c ≢ quote) (bool_text b)
bool_text-NoQuote true = omega arith
bool_text-NoQuote false = omega arith

-- The value of a field is passed over.
pub after-value_text :
    (n : Bytes) (f : Field) (rest : Bytes)
    → all name_char n ≡ true
    → IsField f
    → Follows rest
    → after (needle n) (value_text f ++ rest) ≡ after (needle n) rest
unfolding value_text
after-value_text n (text k v) rest h g w =
    rw (append_assoc (escape_json_string v) (quote ∷ []) rest) (after-value n v rest h w)
after-value_text n (flag k b) rest h g w = after-plain n (bool_text b) rest (bool_text-NoQuote b)
after-value_text n (number k ds) rest h g w = after-plain n ds rest (digits-NoQuote ds g.1)

-- What follows the key, where the name is one of the keys.
unfoldable pub behind : Bytes → List Field → Option Bytes
unfolding key
behind n [] = none
behind n (f ∷ fs) = if same n (key f) then some (value_text f ++ render_rest fs) else behind n fs

after-field :
    (n : Bytes) (f : Field) (fs : List Field)
    → IsName n
    → IsField f
    → after (needle n) (render_field f ++ render_rest fs) ≡ (
        if same n (key f)
        then some (value_text f ++ render_rest fs)
        else after (needle n) (render_rest fs))
unfolding render_field
after-field n f fs h g =
    ap (λ s. after (needle n) (quote ∷ s))
      (append_assoc (key f) (quote ∷ colon ∷ value_text f) (render_rest fs))
    ∙ split (same n (key f)) refl
  where
    split :
        (b : Bool)
        → same n (key f) ≡ b
        → after (needle n) (quote ∷ (key f ++ (quote ∷ colon ∷ (value_text f ++ render_rest fs))))
          ≡ (if same n (key f)
              then some (value_text f ++ render_rest fs)
              else after (needle n) (render_rest fs))
    split true e = rw (e, ← (same_iff n (key f)).0 e) (after-hit n _)
    split false e = rw e (
        after-key n (key f) _ h (IsField-key f g) (λ p. cc (e, (same_iff n (key f)).1 p))
        ∙ after-value_text n f (render_rest fs) h.chars g (render_rest-Follows fs))

-- The same behind one byte that is no quote.
after_byte-field :
    (n : Bytes) (c : ℕ) (f : Field) (fs : List Field)
    → c ≢ quote
    → IsName n
    → IsField f
    → after (needle n) (c ∷ (render_field f ++ render_rest fs)) ≡ (
        if same n (key f)
        then some (value_text f ++ render_rest fs)
        else after (needle n) (render_rest fs))
after_byte-field n c f fs d h g = after-plain n (c ∷ []) _ (d, tt) ∙ after-field n f fs h g

after-render_rest :
    (n : Bytes) (fs : List Field)
    → IsName n
    → All IsField fs
    → after (needle n) (render_rest fs) ≡ behind n fs
unfolding render_rest behind
after-render_rest n [] h g = unfold after strip in refl
after-render_rest n (f ∷ fs) h (g, gs) =
    after_byte-field n b',' f fs (omega arith) h g
    ∙ ap (λ o. if same n (key f) then some (value_text f ++ render_rest fs) else o)
        (after-render_rest n fs h gs)

-- `find` stops exactly behind the first key of that name.
pub after-render_object :
    (n : Bytes) (fs : List Field)
    → IsName n
    → All IsField fs
    → after (needle n) (render_object fs) ≡ behind n fs
unfolding render_object behind
after-render_object n [] h g = unfold after strip in refl
after-render_object n (f ∷ fs) h (g, gs) =
    after_byte-field n b'{' f fs (omega arith) h g
    ∙ ap (λ o. if same n (key f) then some (value_text f ++ render_rest fs) else o)
        (after-render_rest n fs h gs)
