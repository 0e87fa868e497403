-- ===== src/Json/Brackets.antt =====
-- The nesting of braces and brackets in a JSON text, outside its strings: every value must close what
-- it opens, and may close nothing else.
use droidcli.Common.{
  ℕ, zero, suc, Bool, true, false, ◌||◌, Option, none, some, List, [], ◌∷◌, ◌++◌, append_assoc, ◌≡◌,
  refl, ◌∙◌, ap, arith, Bytes, comma_separated, map, All, all, both, ◌≤◌, ◌≢◌, ◌==◌,
}
use droidcli.Json.{quote, backslash, colon, escape_json_string, bool_text}
use droidcli.Json.Skip.{name_char}
use droidcli.Json.Object.{
  Field, text, flag, number, key, value_text, render_field, render_rest, render_object, IsField,
  IsField-key, number_char,
}

-- Outside a string, inside one, and behind a backslash in one.
pub data Mode : Type 0 where
  plain : Mode
  string : Mode
  escaped : Mode

-- The number of open brackets at the end, or `none` where one is closed that was not open, or where
-- the text ends in a string.
unfoldable pub depth : Mode → ℕ → Bytes → Option ℕ
depth plain d [] = some d
depth string d [] = none
depth escaped d [] = none
depth escaped d (c ∷ s) = depth string d s
depth string d (c ∷ s) = elim (c == backslash) [
  | true ↦ depth escaped d s
  | false ↦ elim (c == quote) [ true ↦ depth plain d s | false ↦ depth string d s ]
]
depth plain zero (c ∷ s) = elim (c == quote) [
  | true ↦ depth string zero s
  | false ↦ elim (c == b'{' || c == b'[') [
    | true ↦ depth plain 1 s
    | false ↦ elim (c == b'}' || c == b']') [ true ↦ none | false ↦ depth plain zero s ]
  ]
]
depth plain (suc d) (c ∷ s) = elim (c == quote) [
  | true ↦ depth string (suc d) s
  | false ↦ elim (c == b'{' || c == b'[') [
    | true ↦ depth plain (suc (suc d)) s
    | false ↦ elim (c == b'}' || c == b']') [
      | true ↦ depth plain d s
      | false ↦ depth plain (suc d) s
    ]
  ]
]

pub depth_escaped :
    (d : ℕ) (v rest : Bytes)
    → depth string d (escape_json_string v ++ (quote ∷ rest)) ≡ depth plain d rest
unfolding depth escape_json_string
depth_escaped d [] rest = refl
depth_escaped d (c ∷ v) rest = ground (arith, depth_escaped d v rest)

name_char-plain : (c : ℕ) → name_char c ≡ true → (c ≢ quote) × (c ≢ backslash)
name_char-plain c h = (ground arith, ground arith)

depth_inside :
    (d c : ℕ) (s : Bytes) → c ≢ quote → c ≢ backslash → depth string d (c ∷ s) ≡ depth string d s
unfolding depth
depth_inside d c s hq hb = ground arith

depth_name :
    (d : ℕ) (k rest : Bytes)
    → all name_char k ≡ true
    → depth string d (k ++ (quote ∷ rest)) ≡ depth plain d rest
depth_name d [] rest h = unfold depth in refl
depth_name d (c ∷ k) rest h =
    let (hc, hk) = both (name_char c) (all name_char k) h in
    let (hq, hb) = name_char-plain c hc in depth_inside d c _ hq hb ∙ depth_name d k rest hk

number_char-range : (c : ℕ) → number_char c ≡ true → (b'-' ≤ c) × (c ≤ b'9')
number_char-range c h = (ground arith, ground arith)

depth_outside :
    (d c : ℕ) (s : Bytes) → b'-' ≤ c → c ≤ b'9' → depth plain d (c ∷ s) ≡ depth plain d s
unfolding depth
depth_outside zero c s lo hi = ground arith
depth_outside (suc d) c s lo hi = ground arith

depth_number :
    (d : ℕ) (ds rest : Bytes)
    → all number_char ds ≡ true
    → depth plain d (ds ++ rest) ≡ depth plain d rest
depth_number d [] rest h = refl
depth_number d (c ∷ ds) rest h =
    let (hc, hs) = both (number_char c) (all number_char ds) h in
    let (lo, hi) = number_char-range c hc in depth_outside d c _ lo hi ∙ depth_number d ds rest hs

-- A quoted text changes no depth.
pub depth_quoted :
    (d : ℕ) (v rest : Bytes)
    → depth plain d (quote ∷ (escape_json_string v ++ (quote ∷ rest))) ≡ depth plain d rest
depth_quoted zero v rest = unfold depth in depth_escaped zero v rest
depth_quoted (suc d) v rest = unfold depth in depth_escaped (suc d) v rest

depth-colon : (d : ℕ) (s : Bytes) → depth plain d (colon ∷ s) ≡ depth plain d s
unfolding depth
depth-colon zero s = refl
depth-colon (suc d) s = refl

pub depth_comma : (d : ℕ) (s : Bytes) → depth plain d (b',' ∷ s) ≡ depth plain d s
unfolding depth
depth_comma zero s = refl
depth_comma (suc d) s = refl

pub depth_key :
    (d : ℕ) (k rest : Bytes)
    → all name_char k ≡ true
    → depth plain d (quote ∷ (k ++ (quote ∷ colon ∷ rest))) ≡ depth plain d rest
depth_key zero k rest h = unfold depth in depth_name zero k (colon ∷ rest) h
depth_key (suc d) k rest h =
    unfold depth in depth_name (suc d) k (colon ∷ rest) h ∙ depth-colon (suc d) rest

pub depth_bool :
    (d : ℕ) (b : Bool) (rest : Bytes) → depth plain d (bool_text b ++ rest) ≡ depth plain d rest
unfolding depth
depth_bool zero true rest = refl
depth_bool zero false rest = refl
depth_bool (suc d) true rest = refl
depth_bool (suc d) false rest = refl

depth-value_text :
    (d : ℕ) (f : Field) (rest : Bytes)
    → IsField f
    → depth plain d (value_text f ++ rest) ≡ depth plain d rest
unfolding value_text
depth-value_text d (text k v) rest h =
    ap (λ s. depth plain d (quote ∷ s)) (append_assoc (escape_json_string v) (quote ∷ []) rest)
    ∙ depth_quoted d v rest
depth-value_text d (flag k b) rest h = depth_bool d b rest
depth-value_text d (number k ds) rest h = depth_number d ds rest h.1

pub depth-render_field :
    (d : ℕ) (f : Field) (rest : Bytes)
    → IsField f
    → depth plain d (render_field f ++ rest) ≡ depth plain d rest
unfolding render_field
depth-render_field d f rest h =
    ap (λ s. depth plain d (quote ∷ s)) (append_assoc (key f) (quote ∷ colon ∷ value_text f) rest)
    ∙ depth_key d (key f) (value_text f ++ rest) (IsField-key f h)
    ∙ depth-value_text d f rest h

depth-render_rest :
    (d : ℕ) (fs : List Field) (rest : Bytes)
    → All IsField fs
    → depth plain (suc d) (render_rest fs ++ rest) ≡ depth plain d rest
unfolding render_rest
depth-render_rest d [] rest h = unfold depth in refl
depth-render_rest d (f ∷ fs) rest (g, h) =
    depth_comma (suc d) _
    ∙ ap (depth plain (suc d)) (append_assoc (render_field f) (render_rest fs) rest)
    ∙ depth-render_field (suc d) f _ g
    ∙ depth-render_rest d fs rest h

pub depth_open : (d : ℕ) (s : Bytes) → depth plain d (b'{' ∷ s) ≡ depth plain (suc d) s
unfolding depth
depth_open zero s = refl
depth_open (suc d) s = refl

-- An object that the writers wrote closes what it opens.
pub depth-render_object :
    (d : ℕ) (fs : List Field) (rest : Bytes)
    → All IsField fs
    → depth plain d (render_object fs ++ rest) ≡ depth plain d rest
unfolding render_object
depth-render_object zero [] rest h = unfold depth in refl
depth-render_object (suc d) [] rest h = unfold depth in refl
depth-render_object d (f ∷ fs) rest (g, h) =
    depth_open d _
    ∙ ap (depth plain (suc d)) (append_assoc (render_field f) (render_rest fs) rest)
    ∙ depth-render_field (suc d) f _ g
    ∙ depth-render_rest d fs rest h

-- Neither does a list of values, a comma between two, where no value does.
pub depth-comma_separated {ℓ} :
    {A : Type ℓ} (d : ℕ) (print : A → Bytes)
    → ((a : A) (rest : Bytes) → depth plain d (print a ++ rest) ≡ depth plain d rest)
    → (xs : List A) (rest : Bytes)
    → depth plain d (comma_separated (map print xs) ++ rest) ≡ depth plain d rest
unfolding comma_separated
depth-comma_separated d print h [] rest = refl
depth-comma_separated d print h (x ∷ []) rest = h x rest
depth-comma_separated d print h (x ∷ y ∷ xs) rest =
    ap (depth plain d) (append_assoc (print x) (b',' ∷ comma_separated (map print (y ∷ xs))) rest)
    ∙ h x _
    ∙ depth_comma d _
    ∙ depth-comma_separated d print h (y ∷ xs) rest
