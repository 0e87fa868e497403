-- ===== src/Ai/Reply.antt =====
-- The replies of an OpenAI-compatible provider, as src/ai/openai_compat_client.cpp documents them: an
-- object with any fields before its choices, the first choice with any fields before its message, and
-- the message with any fields before its content.
use mathlib.Core.Option
use droidcli.Common.{
  ℕ, suc, Bool, true, false, ◌||◌, Option, none, some, List, [], ◌∷◌, ◌++◌, ◌≡◌, ◌≢◌, refl, ◌∙◌, ap,
  arith, Bytes, codes, ◌==◌, All, all, same, sym, same_iff, after, Bool-cases, inl, inr, length,
}
use droidcli.Json.{
  quote, colon, needle, read_value, extract_json_string_field, quoted_value, find_value,
  skip_blanks, string_found,
}
use droidcli.Json.Skip.{name_char, IsName, named, at_comma, after-plain, after-key, after-hit}
use droidcli.Json.Object.{
  Field, key, value_text, lookup_field, IsField, IsField-key, after-value_text,
}
use droidcli.Ai.Response.{
  take_object, objects, extract_json_object_array_at, array_field, bracket_from, skip_separators,
}

abbrev pub is_brace : ℕ → Bool
is_brace c = c == b'{' || c == b'}'

abbrev pub NoBrace : Bytes → Type 0
NoBrace = All (λ c. is_brace c ≡ false)

-- Without braces the count does not move.
pub take_object-append :
    (d : ℕ) (p s : Bytes)
    → NoBrace p
    → take_object d (p ++ s) ≡ (p ++ (take_object d s).0, (take_object d s).1)
unfolding take_object
take_object-append d [] s h = refl
take_object-append d (c ∷ p) s (h, hs) = ground (arith, take_object-append d p s)

-- Fields, each with a comma behind it, and what comes then.
unfoldable pub fields_before : List Field → Bytes → Bytes
unfolding key value_text
fields_before [] rest = rest
fields_before (f ∷ fs) rest =
    quote ∷ (key f ++ (quote ∷ colon ∷ (value_text f ++ (b',' ∷ fields_before fs rest))))

-- A first choice up to the text of its message.
abbrev pub choice : List Field → List Field → Bytes → Bytes
choice inner lead rest =
    b'{'
    ∷ fields_before inner (
        quote
        ∷ (codes "message"
            ++ (quote
                ∷ colon
                ∷ b'{'
                ∷ fields_before lead
                    (quote ∷ (codes "content" ++ (quote ∷ colon ∷ quote ∷ rest))))))

abbrev pub reply : List Field → List Field → List Field → Bytes → Bytes
reply outer inner lead rest =
    b'{'
    ∷ fields_before outer
        (quote ∷ (codes "choices" ++ (quote ∷ colon ∷ b'[' ∷ choice inner lead rest)))

-- Fields none of which has that name.
abbrev pub IsWithout : Bytes → List Field → Type 0
IsWithout n fs = All IsField fs × (lookup_field n fs ≡ none)

IsWithout-head :
    (n : Bytes) (f : Field) (fs : List Field)
    → lookup_field n (f ∷ fs) ≡ none
    → (n ≢ key f) × (lookup_field n fs ≡ none)
unfolding lookup_field
IsWithout-head n f fs e = elim (Bool-cases (same n (key f))) [
  | inl q ↦ absurd (Option.none-ne-some f (sym e ∙ rw q refl))
  | inr q ↦ (λ p. cc (q, (same_iff n (key f)).1 p), sym (rw q refl) ∙ e)
]

-- `find` passes over fields of other names.
after-fields :
    (n : Bytes) (fs : List Field) (rest : Bytes)
    → IsName n
    → IsWithout n fs
    → after (needle n) (fields_before fs rest) ≡ after (needle n) rest
unfolding fields_before
after-fields n [] rest h g = refl
after-fields n (f ∷ fs) rest h ((g, gs), e) =
    let d = IsWithout-head n f fs e in
    after-key n (key f) _ h (IsField-key f g) d.0
    ∙ after-value_text n f _ h.chars g (at_comma _)
    ∙ after-plain n (b',' ∷ []) _ (omega arith, tt)
    ∙ after-fields n fs rest h (gs, d.1)

abbrev kept : Bytes → Bytes × Bytes → Bytes × Bytes
kept p o = (p ++ o.0, o.1)

-- Fields whose values have no braces.
abbrev pub IsBraceless : List Field → Type 0
IsBraceless = All (λ f. IsField f × NoBrace (value_text f))

name-NoBrace : (n : Bytes) → all name_char n ≡ true → NoBrace n
name-NoBrace [] h = tt
name-NoBrace (c ∷ n) h = (ground arith, name-NoBrace n (ground arith))

take_object-key :
    (d : ℕ) (k s : Bytes)
    → all name_char k ≡ true
    → take_object d (quote ∷ (k ++ (quote ∷ colon ∷ s)))
      ≡ (quote ∷ (k ++ (quote ∷ colon ∷ (take_object d s).0)), (take_object d s).1)
take_object-key d k s h =
    take_object-append d (quote ∷ []) _ (refl, tt)
    ∙ ap (kept (quote ∷ [])) (
        take_object-append d k (quote ∷ colon ∷ s) (name-NoBrace k h)
        ∙ ap (kept k) (take_object-append d (quote ∷ colon ∷ []) s (refl, (refl, tt))))

-- The count passes over them.
take_object-fields :
    (d : ℕ) (fs : List Field) (s : Bytes)
    → IsBraceless fs
    → take_object d (fields_before fs s)
      ≡ (fields_before fs (take_object d s).0, (take_object d s).1)
unfolding fields_before
take_object-fields d [] s h = refl
take_object-fields d (f ∷ fs) s ((g, b), hs) =
    take_object-key d (key f) _ (IsField-key f g)
    ∙ ap (λ o. (quote ∷ (key f ++ (quote ∷ colon ∷ o.0)), o.1))
        (take_object-append d (value_text f) _ b
          ∙ ap (kept (value_text f)) (
              take_object-append d (b',' ∷ []) _ (refl, tt)
              ∙ ap (kept (b',' ∷ [])) (take_object-fields d fs s hs)))

open_brace :
    (d : ℕ) (s : Bytes) → take_object d (b'{' ∷ s) ≡ kept (b'{' ∷ []) (take_object (suc d) s)
unfolding take_object
open_brace d s = refl

-- The first choice is taken up to where the count ends in the text of its message.
take_object-choice :
    (inner lead : List Field) (rest : Bytes)
    → IsBraceless inner
    → IsBraceless lead
    → take_object 0 (choice inner lead rest)
      ≡ (choice inner lead (take_object 2 rest).0, (take_object 2 rest).1)
take_object-choice inner lead rest h g =
    open_brace 0 _
    ∙ ap (kept (b'{' ∷ [])) (
        take_object-fields 1 inner _ h
        ∙ ap (λ o. (fields_before inner o.0, o.1))
            (take_object-key 1 (codes "message") _ refl
              ∙ ap (λ o. (quote ∷ (codes "message" ++ (quote ∷ colon ∷ o.0)), o.1))
                  (open_brace 1 _
                    ∙ ap (kept (b'{' ∷ [])) (
                        take_object-fields 2 lead _ g
                        ∙ ap (λ o. (fields_before lead o.0, o.1))
                            (take_object-key 2 (codes "content") _ refl
                              ∙ ap (λ o. (quote ∷ (codes "content" ++ (quote ∷ colon ∷ o.0)), o.1))
                                  (take_object-append 2 (quote ∷ []) rest (refl, tt)))))))

content_other : same (codes "content") (codes "message") ≡ false
unfolding same
content_other = refl

content-found :
    (inner lead : List Field) (rest : Bytes)
    → IsWithout (codes "content") inner
    → IsWithout (codes "content") lead
    → after (needle (codes "content")) (choice inner lead rest) ≡ some (quote ∷ rest)
content-found inner lead rest h g =
    let name = named (codes "content") (cc) refl in
    after-plain (codes "content") (b'{' ∷ []) _ (omega arith, tt)
    ∙ after-fields (codes "content") inner _ name h
    ∙ after-key (codes "content") (codes "message") _ name refl
        (λ p. cc (content_other, (same_iff (codes "content") (codes "message")).1 p))
    ∙ after-plain (codes "content") (b'{' ∷ []) _ (omega arith, tt)
    ∙ after-fields (codes "content") lead _ name g
    ∙ after-hit (codes "content") _

string_field-found :
    (json name s : Bytes)
    → after (needle name) json ≡ some (quote ∷ s)
    → extract_json_string_field json name 0 ≡ read_value s false
unfolding extract_json_string_field find_value skip_blanks quoted_value
string_field-found json name s e = ap (λ o. string_found (Option.map skip_blanks o)) e

-- The content of a choice is read from its message.
pub content-choice :
    (inner lead : List Field) (rest : Bytes)
    → IsWithout (codes "content") inner
    → IsWithout (codes "content") lead
    → extract_json_string_field (choice inner lead rest) (codes "content") 0 ≡ read_value rest false
content-choice inner lead rest h g =
    string_field-found (choice inner lead rest) (codes "content") rest
      (content-found inner lead rest h g)

choices-found :
    (outer inner lead : List Field) (rest : Bytes)
    → IsWithout (codes "choices") outer
    → after (needle (codes "choices")) (reply outer inner lead rest)
      ≡ some (b'[' ∷ choice inner lead rest)
choices-found outer inner lead rest h =
    after-plain (codes "choices") (b'{' ∷ []) _ (omega arith, tt)
    ∙ after-fields (codes "choices") outer _ (named (codes "choices") (cc) refl) h
    ∙ after-hit (codes "choices") (b'[' ∷ choice inner lead rest)

abbrev objects_found : Option Bytes → List Bytes
objects_found none = []
objects_found (some s) = extract_json_object_array_at (bracket_from s)

array_field_lem :
    (json name : Bytes) → array_field json name ≡ objects_found (after (needle name) json)
unfolding array_field
array_field_lem json name = ground arith

first_object :
    (t : Bytes) (o : Bytes × Bytes)
    → take_object 0 (b'{' ∷ t) ≡ o
    → (more : List Bytes) × (extract_json_object_array_at (bracket_from (b'[' ∷ b'{' ∷ t))
        ≡ o.0 ∷ more)
unfolding extract_json_object_array_at bracket_from objects skip_separators
first_object t o e = (objects (suc (length t)) o.1, ap (λ p. p.0 ∷ objects (suc (length t)) p.1) e)

-- The choices of a reply begin with that one.
pub choices-reply :
    (outer inner lead : List Field) (rest : Bytes)
    → IsWithout (codes "choices") outer
    → IsBraceless inner
    → IsBraceless lead
    → (more : List Bytes) × (array_field (reply outer inner lead rest) (codes "choices")
        ≡ choice inner lead (take_object 2 rest).0 ∷ more)
choices-reply outer inner lead rest h g k =
    let o = first_object _ _ (take_object-choice inner lead rest g k) in
    (
      o.0,
      array_field_lem (reply outer inner lead rest) (codes "choices")
          ∙ ap objects_found (choices-found outer inner lead rest h)
          ∙ o.1,
    )
