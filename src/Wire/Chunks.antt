-- ===== src/Wire/Chunks.antt =====
-- A message that arrives in chunks: what the two loops over `recv` make of it, however it is cut.
use mathlib.Core.Option
use droidcli.Common.{
  ℕ, ◌≤◌, false, Option, none, some, List, [], ◌∷◌, ◌++◌, ◌≡◌, refl, sym, ◌∙◌, ap, arith, Bytes,
  strip, is_empty, length, Option-cases, inl, inr, All,
}
use droidcli.Wire.{cut_at, cons_before}

abbrev pub NonEmpty : List Bytes → Type 0
NonEmpty = All (λ c. is_empty c ≡ false)

pub cut_hit : (n s r : Bytes) → strip n s ≡ some r → cut_at n s ≡ some ([], r)
unfolding cut_at
cut_hit n [] r h = rw h
cut_hit n (c ∷ s) r h = ground arith

pub cut_miss :
    (n : Bytes) (c : ℕ) (s : Bytes)
    → strip n (c ∷ s) ≡ none
    → cut_at n (c ∷ s) ≡ Option.map (cons_before c) (cut_at n s)
unfolding cut_at
cut_miss n c s h = ground arith

pub strip-more : (n s t r : Bytes) → strip n s ≡ some r → strip n (s ++ t) ≡ some (r ++ t)
unfolding strip
strip-more [] s t r h = ap (λ u. some (u ++ t)) (Option.some-injective _ _ h)
strip-more (c ∷ n) [] t r h = cc
strip-more (c ∷ n) (d ∷ s) t r h = ground (arith, strip-more n s t r)

strip-long : (n s t : Bytes) → strip n s ≡ none → length n ≤ length s → strip n (s ++ t) ≡ none
unfolding strip
strip-long [] s t h l = cc
strip-long (c ∷ n) [] t h l = absurd (omega (arith, l))
strip-long (c ∷ n) (d ∷ s) t h l = ground (arith, strip-long n s t)

strip-length : (n s r : Bytes) → strip n s ≡ some r → length n ≤ length s
unfolding strip
strip-length [] s r h = omega arith
strip-length (c ∷ n) [] r h = cc
strip-length (c ∷ n) (d ∷ s) r h = ground (arith, strip-length n s r)

-- How a cut is found.
pub data Cut (n : Bytes) (c : ℕ) (s h r : Bytes) : Type 0 where
  here : strip n (c ∷ s) ≡ some r → h ≡ [] → Cut n c s h r
  later :
      (t : Bytes) → strip n (c ∷ s) ≡ none → h ≡ c ∷ t → cut_at n s ≡ some (t, r) → Cut n c s h r

mapped-Cut :
    (n : Bytes) (c : ℕ) (s h r : Bytes) (o : Option (Bytes × Bytes))
    → cut_at n s ≡ o
    → strip n (c ∷ s) ≡ none
    → Option.map (cons_before c) o ≡ some (h, r)
    → Cut n c s h r
mapped-Cut n c s h r none e m g = cc
mapped-Cut n c s h r (some (t, u)) e m g =
    Cut.later t m (sym (ap (λ p. p.0) (Option.some-injective _ _ g)))
      (e ∙ ap (λ q. some (t, q)) (ap (λ p. p.1) (Option.some-injective _ _ g)))

pub cut_at-Cut :
    (n : Bytes) (c : ℕ) (s h r : Bytes) → cut_at n (c ∷ s) ≡ some (h, r) → Cut n c s h r
cut_at-Cut n c s h r e = elim (Option-cases (strip n (c ∷ s))) [
  | inl m ↦ mapped-Cut n c s h r (cut_at n s) refl m (sym (cut_miss n c s m) ∙ e)
  | inr (u, m) ↦
      let g = Option.some-injective _ _ (sym (cut_hit n (c ∷ s) u m) ∙ e) in
      Cut.here (m ∙ ap some (ap (λ p. p.1) g)) (sym (ap (λ p. p.0) g))
]

pub cut_at-nil : (n h r : Bytes) → cut_at n [] ≡ some (h, r) → (n ≡ []) × ((h ≡ []) × (r ≡ []))
unfolding cut_at strip
cut_at-nil [] h r e =
    let g = Option.some-injective _ _ e in (refl, (sym (ap (λ p. p.0) g), sym (ap (λ p. p.1) g)))
cut_at-nil (c ∷ n) h r e = cc

cut_at-length : (n s h r : Bytes) → cut_at n s ≡ some (h, r) → length n ≤ length s
cut_at-length n [] h r e = omega (arith, ap length (cut_at-nil n h r e).0)
cut_at-length n (c ∷ s) h r e = elim (cut_at-Cut n c s h r e) [
  | here m g ↦ strip-length n (c ∷ s) r m
  | later t m g f ↦ omega (arith, cut_at-length n s t r f)
]

-- What stands behind a text does not move its first cut.
pub cut_at-more :
    (n s t h r : Bytes) → cut_at n s ≡ some (h, r) → cut_at n (s ++ t) ≡ some (h, r ++ t)
cut_at-more n [] t h r e =
    let (a, (b, c)) = cut_at-nil n h r e in cut_hit n t t (rw a (unfold strip in refl)) ∙ rw (b, c)
cut_at-more n (c ∷ s) t h r e = elim (cut_at-Cut n c s h r e) [
  | here m g ↦ rw g (cut_hit n (c ∷ (s ++ t)) (r ++ t) (strip-more n (c ∷ s) t r m))
  | later u m g f ↦
      cut_miss n c (s ++ t) (strip-long n (c ∷ s) t m (omega (arith, cut_at-length n s u r f)))
      ∙ ap (Option.map (cons_before c)) (cut_at-more n s t u r f)
      ∙ ap (λ k. some (k, r ++ t)) (sym g)
]
