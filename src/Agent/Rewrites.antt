-- ===== src/Agent/Rewrites.antt =====
-- The value that a rewritten argument has.
use mathlib.Core.Option
use droidcli.Common.{
  false, Option, none, some, [], ◌∷◌, ◌++◌, append_assoc, append-nil, ◌≡◌, refl, sym, ap, ◌∙◌,
  arith, Bytes, strip, after, after_hit, after_miss, strip-append, Option-cases, inl, inr,
}
use droidcli.Json.{
  quote, needle, skip_blanks, escape_json_string, find_value, extract_json_string_field,
  string_found, quoted_value,
}
use droidcli.Json.RoundTrip.{read_value-escape}
use droidcli.Wire.{cut_at, cons_before}
use droidcli.Wire.Chunks.{
  here, later, cut_at-Cut, cut_at-nil, cut_hit, cut_miss, cut_at-more, strip-more,
}
use droidcli.Agent.Arguments.{blanks, after_value, with_value, replace_json_string_field_value}

strip_sound : (n s r : Bytes) → strip n s ≡ some r → s ≡ n ++ r
unfolding strip
strip_sound [] s r h = Option.some-injective _ _ h
strip_sound (c ∷ n) [] r h = cc
strip_sound (c ∷ n) (d ∷ s) r h = ground (arith, strip_sound n s r)

cut_sound : (n s h r : Bytes) → cut_at n s ≡ some (h, r) → s ≡ h ++ (n ++ r)
cut_sound n [] h r e = let (a, (b, c)) = cut_at-nil n h r e in rw (a, b, c) refl
cut_sound n (c ∷ s) h r e = elim (cut_at-Cut n c s h r e) [
  | here m g ↦ rw g (strip_sound n (c ∷ s) r m)
  | later u m g f ↦ rw g (ap (λ t. c ∷ t) (cut_sound n s u r f))
]

no_match_before : (n s t : Bytes) → strip n (s ++ t) ≡ none → strip n s ≡ none
no_match_before n s t h = elim (Option-cases (strip n s)) [
  | inl m ↦ m
  | inr (r, m) ↦ absurd (Option.some-ne-none (r ++ t) (sym (strip-more n s t r m) ∙ h))
]

-- The first occurrence is the first one also where nothing follows it.
cut_exact : (n s h r : Bytes) → cut_at n s ≡ some (h, r) → cut_at n (h ++ n) ≡ some (h, [])
cut_exact n [] h r e =
    let (a, (b, c)) = cut_at-nil n h r e in rw b (cut_hit n n [] (rw a (unfold strip in refl)))
cut_exact n (c ∷ s) h r e = elim (cut_at-Cut n c s h r e) [
  | here m g ↦ rw g (cut_hit n n [] (ap (strip n) (sym (append-nil n)) ∙ strip-append n []))
  | later u m g f ↦ rw g (
      cut_miss n c (u ++ n) (
        no_match_before n (c ∷ (u ++ n)) r
          (ap (λ t. strip n (c ∷ t)) (append_assoc u n r ∙ sym (cut_sound n s u r f)) ∙ m))
      ∙ ap (Option.map (cons_before c)) (cut_exact n s u r f))
]

cut_again : (n s h r x : Bytes) → cut_at n s ≡ some (h, r) → cut_at n (h ++ (n ++ x)) ≡ some (h, x)
cut_again n s h r x e =
    ap (cut_at n) (sym (append_assoc h n x)) ∙ cut_at-more n (h ++ n) x h [] (cut_exact n s h r e)

after-cut_at : (n s h r : Bytes) → cut_at n s ≡ some (h, r) → after n s ≡ some r
unfolding after
after-cut_at n [] h r e = let (a, (b, c)) = cut_at-nil n h r e in rw (a, c) (unfold strip in refl)
after-cut_at n (c ∷ s) h r e = elim (cut_at-Cut n c s h r e) [
  | here m g ↦ after_hit n (c ∷ s) r m
  | later u m g f ↦ after_miss n c s m ∙ after-cut_at n s u r f
]

skip_blanks-again : (s t : Bytes) → skip_blanks (blanks s ++ (quote ∷ t)) ≡ quote ∷ t
unfolding skip_blanks blanks
skip_blanks-again [] t = refl
skip_blanks-again (c ∷ s) t = ground (arith, skip_blanks-again s t)

after-found : (n s r : Bytes) → after n s ≡ some r → (h : Bytes) × (cut_at n s ≡ some (h, r))
unfolding after
after-found n [] r e = ([], cut_hit n [] r e)
after-found n (c ∷ s) r e = elim (Option-cases (strip n (c ∷ s))) [
  | inl m ↦
      let (h, f) = after-found n s r (sym (after_miss n c s m) ∙ e) in
      (c ∷ h, cut_miss n c s m ∙ ap (Option.map (cons_before c)) f)
  | inr (u, m) ↦ ([], cut_hit n (c ∷ s) r (m ∙ sym (after_hit n (c ∷ s) u m) ∙ e))
]

-- Where the scanner finds a value.
data Found (n json v : Bytes) : Type 0 where
  at : (rest : Bytes) → after n json ≡ some rest → skip_blanks rest ≡ v → Found n json v

mapped-Found :
    (n json v : Bytes) (o : Option Bytes)
    → after n json ≡ o
    → Option.map skip_blanks o ≡ some v
    → Found n json v
mapped-Found n json v none e h = cc
mapped-Found n json v (some rest) e h = at rest e (Option.some-injective _ _ h)

find_value-Found :
    (json name v : Bytes) → find_value json name 0 ≡ some v → Found (needle name) json v
unfolding find_value
find_value-Found json name v h = mapped-Found (needle name) json v (after (needle name) json) refl h

replaced_text :
    (json name v b rest t : Bytes)
    → cut_at (needle name) json ≡ some (b, rest)
    → skip_blanks rest ≡ quote ∷ t
    → replace_json_string_field_value json name v
      ≡ b
        ++ (needle name
            ++ (blanks rest ++ (quote ∷ (escape_json_string v ++ (quote ∷ after_value t false)))))
unfolding replace_json_string_field_value with_value
replaced_text json name v b rest t e f = rw (e, f) refl

reads_at :
    (name v s y t : Bytes)
    → after (needle name) s ≡ some y
    → skip_blanks y ≡ quote ∷ (escape_json_string v ++ (quote ∷ t))
    → extract_json_string_field s name 0 ≡ v
unfolding extract_json_string_field find_value quoted_value
reads_at name v s y t e f =
    ap string_found (ap (Option.map skip_blanks) e ∙ ap some f) ∙ read_value-escape v t

reads_replaced :
    (json name v b rest t : Bytes)
    → cut_at (needle name) json ≡ some (b, rest)
    → skip_blanks rest ≡ quote ∷ t
    → extract_json_string_field (replace_json_string_field_value json name v) name 0 ≡ v
reads_replaced json name v b rest t e f =
    let x = blanks rest ++ (quote ∷ (escape_json_string v ++ (quote ∷ after_value t false))) in
    ap (λ s. extract_json_string_field s name 0) (replaced_text json name v b rest t e f)
    ∙ reads_at name v (b ++ (needle name ++ x)) x (after_value t false)
        (after-cut_at (needle name) (b ++ (needle name ++ x)) b x
          (cut_again (needle name) json b rest x e))
        (skip_blanks-again rest (escape_json_string v ++ (quote ∷ after_value t false)))

-- A rewritten field reads as its new value: if the scanner finds a quoted value behind the field's name, then
-- in the rewritten text it reads the new value there, whatever bytes this has.
pub rewritten_field_reads :
    (json field_name new_value t : Bytes)
    → find_value json field_name 0 ≡ some (quote ∷ t)
    → extract_json_string_field
        (replace_json_string_field_value json field_name new_value)
        field_name
        0
      ≡ new_value
rewritten_field_reads json field_name new_value t h =
    elim (find_value-Found json field_name (quote ∷ t) h) [
      | at rest e f ↦
          let (b, c) = after-found (needle field_name) json rest e in
          reads_replaced json field_name new_value b rest t c f
    ]
