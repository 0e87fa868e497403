-- ===== src/Wire/Heads.antt =====
-- The head of a message: where it ends, and its lines.
use mathlib.Core.Option
use droidcli.Common.{
  ℕ, Bool, true, false, not, ◌&&◌, some, List, [], ◌∷◌, ◌++◌, append_assoc, append-nil, ◌≡◌, ◌≢◌,
  refl, sym, ◌∙◌, ap, ap₂, arith, Bytes, concat, map, strip, strip_ne, is_empty, ◌==◌, All,
  All-append, all,
}
use droidcli.Wire.{crlf, blank_line, cut_at, cons_before, lines, strip_cr, head_lines, message_text}
use droidcli.Wire.Chunks.{cut_miss}

-- A line that is not empty and has no line break in it.
abbrev pub InLine : ℕ → Type 0
InLine c = (c ≢ 13) × (c ≢ 10)

pub record IsLine (l : Bytes) : Type 0 where
  pub nonempty : is_empty l ≡ false
  pub chars : All InLine l

-- The lines of a head, a line break between two.
unfoldable pub joined : List Bytes → Bytes
joined [] = []
joined (l ∷ []) = l
joined (l ∷ m ∷ ls) = l ++ (13 ∷ 10 ∷ joined (m ∷ ls))

abbrev append_before : Bytes → Bytes × Bytes → Bytes × Bytes
append_before l (s, t) = (l ++ s, t)

cut-line :
    (l s h r : Bytes)
    → All InLine l
    → cut_at blank_line s ≡ some (h, r)
    → cut_at blank_line (l ++ s) ≡ some (l ++ h, r)
cut-line [] s h r g e = e
cut-line (c ∷ l) s h r ((a, b), g) e =
    cut_miss blank_line c (l ++ s) (strip_ne 13 c (10 ∷ 13 ∷ 10 ∷ []) (l ++ s) (λ p. a (sym p)))
    ∙ ap (Option.map (cons_before c)) (cut-line l s h r g e)

-- A line break in front of a line is no blank line.
cut-break :
    (l s h r : Bytes)
    → IsLine l
    → cut_at blank_line (l ++ s) ≡ some (h, r)
    → cut_at blank_line (13 ∷ 10 ∷ (l ++ s)) ≡ some (13 ∷ 10 ∷ h, r)
cut-break [] s h r g e = cc (g.nonempty)
cut-break (c ∷ l) s h r g e =
    let other = strip_ne 13 c (10 ∷ []) (l ++ s) (λ p. g.chars.0.0 (sym p)) in
    cut_miss blank_line 13 (10 ∷ c ∷ (l ++ s)) (unfold strip in other)
    ∙ ap (Option.map (cons_before 13)) (
        cut_miss blank_line 10 (c ∷ (l ++ s)) (unfold strip in refl)
        ∙ ap (Option.map (cons_before 10)) e)

text_cons :
    (l : Bytes) (ls : List Bytes) (body : Bytes)
    → message_text (l ∷ ls) body ≡ l ++ (13 ∷ 10 ∷ message_text ls body)
unfolding message_text
text_cons l ls body =
    append_assoc (l ++ crlf) (concat (map (λ m. m ++ crlf) ls)) (crlf ++ body)
    ∙ append_assoc l crlf (concat (map (λ m. m ++ crlf) ls) ++ (crlf ++ body))

joined_one : (l : Bytes) → joined (l ∷ []) ≡ l
unfolding joined
joined_one l = refl

joined_more :
    (l m : Bytes) (ls : List Bytes) → joined (l ∷ m ∷ ls) ≡ l ++ (13 ∷ 10 ∷ joined (m ∷ ls))
unfolding joined
joined_more l m ls = refl

-- The head of a message ends behind its last line.
pub cut-message_text :
    (l : Bytes) (ls : List Bytes) (body : Bytes)
    → All IsLine (l ∷ ls)
    → cut_at blank_line (message_text (l ∷ ls) body) ≡ some (joined (l ∷ ls), body)
cut-message_text l [] body (g, gs) =
    ap (cut_at blank_line) (text_cons l [] body)
    ∙ cut-line l (13 ∷ 10 ∷ message_text [] body) [] body g.chars
        (unfold cut_at strip message_text in refl)
    ∙ ap (λ h. some (h, body)) (append-nil l ∙ sym (joined_one l))
cut-message_text l (m ∷ ls) body (g, gs) =
    ap (cut_at blank_line) (text_cons l (m ∷ ls) body)
    ∙ cut-line l (13 ∷ 10 ∷ message_text (m ∷ ls) body) (13 ∷ 10 ∷ joined (m ∷ ls)) body g.chars (
        ap (λ t. cut_at blank_line (13 ∷ 10 ∷ t)) (text_cons m ls body)
        ∙ cut-break m (13 ∷ 10 ∷ message_text ls body) (joined (m ∷ ls)) body gs.0
            (ap (cut_at blank_line) (sym (text_cons m ls body)) ∙ cut-message_text m ls body gs))
    ∙ ap (λ h. some (h, body)) (sym (joined_more l m ls))

abbrev cons_line : ℕ → List Bytes → List Bytes
cons_line c [] = (c ∷ []) ∷ []
cons_line c (l ∷ ls) = (c ∷ l) ∷ ls

lines-other : (c : ℕ) (s : Bytes) → c ≢ 10 → lines (c ∷ s) ≡ cons_line c (lines s)
unfolding lines
lines-other c s h = ground arith

lines-break : (l s : Bytes) → All InLine l → lines (l ++ (13 ∷ 10 ∷ s)) ≡ (l ++ (13 ∷ [])) ∷ lines s
lines-break [] s h = unfold lines in refl
lines-break (c ∷ l) s ((a, b), h) = lines-other c _ b ∙ ap (cons_line c) (lines-break l s h)

lines-last : (c : ℕ) (l : Bytes) → All InLine (c ∷ l) → lines (c ∷ l) ≡ (c ∷ l) ∷ []
lines-last c [] ((a, b), h) = lines-other c [] b ∙ unfold lines in refl
lines-last c (d ∷ l) ((a, b), h) = lines-other c (d ∷ l) b ∙ ap (cons_line c) (lines-last d l h)

strip_cr-last : (l : Bytes) → All InLine l → strip_cr l ≡ l
unfolding strip_cr
strip_cr-last [] h = refl
strip_cr-last (c ∷ []) ((a, b), h) = ground arith
strip_cr-last (c ∷ d ∷ l) (a, h) = ap (λ t. c ∷ t) (strip_cr-last (d ∷ l) h)

strip_cr-break : (l : Bytes) → strip_cr (l ++ (13 ∷ [])) ≡ l
unfolding strip_cr
strip_cr-break [] = refl
strip_cr-break (c ∷ []) = refl
strip_cr-break (c ∷ d ∷ l) = ap (λ t. c ∷ t) (strip_cr-break (d ∷ l))

lines-IsLine : (l : Bytes) → IsLine l → lines l ≡ l ∷ []
lines-IsLine [] h = cc (h.nonempty)
lines-IsLine (c ∷ l) h = lines-last c l h.chars

-- The lines of a head are those that it was written with.
pub head_lines-joined : (ls : List Bytes) → All IsLine ls → head_lines (joined ls) ≡ ls
unfolding head_lines joined
head_lines-joined [] h = unfold lines in refl
head_lines-joined (l ∷ []) (h, hs) =
    ap (map strip_cr) (lines-IsLine l h) ∙ ap (λ t. t ∷ []) (strip_cr-last l h.chars)
head_lines-joined (l ∷ m ∷ ls) (h, hs) =
    ap (map strip_cr) (lines-break l (joined (m ∷ ls)) h.chars)
    ∙ ap₂ (λ t ts. t ∷ ts) (strip_cr-break l) (head_lines-joined (m ∷ ls) hs)

abbrev pub in_line : ℕ → Bool
in_line c = not (c == 13) && not (c == 10)

pub in_line-InLine : (s : Bytes) → all in_line s ≡ true → All InLine s
in_line-InLine [] h = tt
in_line-InLine (c ∷ s) h = ((ground arith, ground arith), in_line-InLine s (ground arith))

-- A line of a text that is known and of one that is not.
pub written-IsLine :
    (s t : Bytes) → is_empty s ≡ false → all in_line s ≡ true → All InLine t → IsLine (s ++ t)
written-IsLine [] t e h g = cc
written-IsLine (c ∷ s) t e h g = record {
  nonempty = refl;
  chars = All-append InLine (c ∷ s) t (in_line-InLine (c ∷ s) h) g;
}
