-- ===== src/Guards/Commands.antt =====
-- src/reliability/command_guards.cpp: which commands are called destructive.
use droidcli.Common.{
  ℕ, zero, suc, true, none, some, List, [], ◌∷◌, ◌++◌, ◌≡◌, ◌↔◌, refl, sym, ◌∙◌, ap, subst, arith,
  Bytes, strip, strip-append, after, after_hit, after_miss, contains, is_some, get_elem?, ==_iff,
  ◌==◌, ap₂, Option-cases, Bool-cases, inl, inr, All,
}
use droidcli.Guards.Patterns.{IsDestructive, place, patterns-IsDestructive}
use droidcli.Guards.{
  to_lower_ascii, lower_char, destructive_patterns, matches_any, looks_like_destructive_command,
}

-- The command has such a text in it, in upper, lower or mixed case, behind and before anything.
pub record Spells (command : Bytes) : Type 0 where
  pub before : Bytes
  pub spelled : Bytes
  pub behind : Bytes
  pub destructive : IsDestructive (to_lower_ascii spelled)
  pub parts : command ≡ before ++ (spelled ++ behind)

lower-append : (s t : Bytes) → to_lower_ascii (s ++ t) ≡ to_lower_ascii s ++ to_lower_ascii t
unfolding to_lower_ascii
lower-append [] t = refl
lower-append (c ∷ s) t = ap (λ r. lower_char c ∷ r) (lower-append s t)

contains-here : (n s : Bytes) → contains n (n ++ s) ≡ true
unfolding contains
contains-here n s = ap is_some (after_hit n (n ++ s) s (strip-append n s))

contains-cons : (n : Bytes) (c : ℕ) (s : Bytes) → contains n s ≡ true → contains n (c ∷ s) ≡ true
unfolding contains
contains-cons n c s h = elim (Option-cases (strip n (c ∷ s))) [
  | inl e ↦ ap is_some (after_miss n c s e) ∙ h
  | inr (r, e) ↦ ap is_some (after_hit n (c ∷ s) r e)
]

contains-behind : (n p s : Bytes) → contains n s ≡ true → contains n (p ++ s) ≡ true
contains-behind n [] s h = h
contains-behind n (c ∷ p) s h = contains-cons n c (p ++ s) (contains-behind n p s h)

matches_any-pattern :
    (ps : List Bytes) (i : ℕ) (n s : Bytes)
    → get_elem? ps i ≡ some n
    → contains n s ≡ true
    → matches_any ps s ≡ true
unfolding matches_any
matches_any-pattern [] i n s e h = cc
matches_any-pattern (p ∷ ps) zero n s e h = ground arith
matches_any-pattern (p ∷ ps) (suc i) n s e h = ground (arith, matches_any-pattern ps i n s)

Spells-flagged : (command : Bytes) → Spells command → looks_like_destructive_command command ≡ true
unfolding looks_like_destructive_command
Spells-flagged command w =
    let n = to_lower_ascii w.spelled in
    let p = place n w.destructive in
    matches_any-pattern destructive_patterns p.0 n _ p.1 (
      subst (λ s. contains n s ≡ true)
        (sym (
          ap to_lower_ascii w.parts
          ∙ lower-append w.before (w.spelled ++ w.behind)
          ∙ ap (λ r. to_lower_ascii w.before ++ r) (lower-append w.spelled w.behind)))
        (contains-behind n (to_lower_ascii w.before) _ (contains-here n _)))

-- A text that begins, lowered, with a pattern begins with a spelling of it.
strip-spelled :
    (n s r : Bytes)
    → strip n (to_lower_ascii s) ≡ some r
    → (spelled : Bytes) × ((behind : Bytes) × ((to_lower_ascii spelled ≡ n)
          × (s ≡ spelled ++ behind)))
unfolding strip to_lower_ascii
strip-spelled [] s r h = ([], (s, (refl, refl)))
strip-spelled (m ∷ n) [] r h = cc
strip-spelled (m ∷ n) (c ∷ s) r h = elim (Bool-cases (m == lower_char c)) [
  | inl e ↦
      let (spelled, (behind, (p, q))) = strip-spelled n s r (ground arith) in
      (c ∷ spelled, (behind, (ap₂ ◌∷◌ (sym ((==_iff m (lower_char c)).0 e)) p, ap (λ t. c ∷ t) q)))
  | inr e ↦ ground arith
]

begins-Spells : (n s r : Bytes) → IsDestructive n → strip n (to_lower_ascii s) ≡ some r → Spells s
begins-Spells n s r d h =
    let (spelled, (behind, (p, q))) = strip-spelled n s r h in
    record {
      before = [];
      spelled = spelled;
      behind = behind;
      destructive = subst IsDestructive (sym p) d;
      parts = q;
    }

later-Spells : (c : ℕ) (s : Bytes) → Spells s → Spells (c ∷ s)
later-Spells c s w = record {
  before = c ∷ w.before;
  spelled = w.spelled;
  behind = w.behind;
  destructive = w.destructive;
  parts = ap (λ t. c ∷ t) w.parts;
}

none_found : (n : Bytes) → strip n [] ≡ none → contains n (to_lower_ascii []) ≡ true → Spells []
unfolding contains to_lower_ascii after
none_found n e h = cc

contains-Spells : (n s : Bytes) → IsDestructive n → contains n (to_lower_ascii s) ≡ true → Spells s
contains-Spells n [] d h = elim (Option-cases (strip n [])) [
  | inl e ↦ none_found n e h
  | inr (r, e) ↦ begins-Spells n [] r d (unfold to_lower_ascii in e)
]
contains-Spells n (c ∷ s) d h = elim (Option-cases (strip n (to_lower_ascii (c ∷ s)))) [
  | inl e ↦ later-Spells c s (
      contains-Spells n s d
        (unfold contains to_lower_ascii in sym (ap is_some (after_miss n (lower_char c) _ e)) ∙ h))
  | inr (r, e) ↦ begins-Spells n (c ∷ s) r d e
]

matched-Spells :
    (ps : List Bytes) (s : Bytes)
    → All IsDestructive ps
    → matches_any ps (to_lower_ascii s) ≡ true
    → Spells s
unfolding matches_any
matched-Spells [] s d h = cc
matched-Spells (p ∷ ps) s (d, ds) h = elim (Bool-cases (contains p (to_lower_ascii s))) [
  | inl e ↦ contains-Spells p s d e
  | inr e ↦ matched-Spells ps s ds (ground arith)
]

-- A command is called destructive exactly where one of the 21 texts of `IsDestructive` stands in it, in
-- upper, lower or mixed case, whatever stands before and behind the text, so also where the text is the
-- end of a harmless word.
pub looks_like_destructive_command_lem :
    (command : Bytes) → (looks_like_destructive_command command ≡ true) ↔ Spells command
looks_like_destructive_command_lem command = (
  λ h.
      matched-Spells destructive_patterns command patterns-IsDestructive
        (unfold looks_like_destructive_command in h),
  Spells-flagged command,
)
