-- ===== src/Guards/Paths.antt =====
-- src/reliability/path_guards.cpp: the default of a bare file name.
use droidcli.Common.{
  true, ◌||◌, [], ◌∷◌, ◌++◌, ◌≡◌, ap, arith, Bytes, codes, is_empty, if◌then◌else◌, Bool-cases, ◌⊎◌,
  inl, inr,
}
use droidcli.Guards.{has_separator, ends_in_separator, default_bare_filename_to_desktop}

has_separator-left : (s t : Bytes) → has_separator s ≡ true → has_separator (s ++ t) ≡ true
has_separator-left [] t h = cc
has_separator-left (c ∷ s) t h = ground (arith, has_separator-left s t)

has_separator-right : (s t : Bytes) → has_separator t ≡ true → has_separator (s ++ t) ≡ true
has_separator-right [] t h = h
has_separator-right (c ∷ s) t h = ground (arith, has_separator-right s t)

ends-has_separator : (s : Bytes) → ends_in_separator s ≡ true → has_separator s ≡ true
unfolding ends_in_separator
ends-has_separator [] h = cc
ends-has_separator (c ∷ []) h = ground arith
ends-has_separator (c ∷ d ∷ s) h = ground (arith, ends-has_separator (d ∷ s))

joined-has_separator :
    (d p : Bytes)
    → has_separator (d ++ ((if ends_in_separator d then [] else codes "\\") ++ p)) ≡ true
joined-has_separator d p = elim (Bool-cases (ends_in_separator d)) [
  | inl e ↦ has_separator-left d _ (ends-has_separator d e)
  | inr e ↦ has_separator-right d _ (rw e)
]

kept :
    (path desktop : Bytes)
    → has_separator path ≡ true
    → default_bare_filename_to_desktop path desktop ≡ path
unfolding default_bare_filename_to_desktop
kept path desktop h = ground arith

default-cases :
    (path desktop : Bytes)
    → (default_bare_filename_to_desktop path desktop ≡ path)
      ⊎ (has_separator (default_bare_filename_to_desktop path desktop) ≡ true)
unfolding default_bare_filename_to_desktop
default-cases path desktop = elim (Bool-cases (is_empty path || is_empty desktop)) [
  | inl e ↦ inl (rw e)
  | inr e ↦ elim (Bool-cases (has_separator path)) [
    | inl g ↦ inl (rw (e, g))
    | inr g ↦ inr (rw (e, g) (joined-has_separator desktop path))
  ]
]

-- What the default gives is kept by it: applied twice it gives what it gives once, whatever the path and
-- the desktop are.
pub default_bare_filename-twice :
    (path desktop : Bytes)
    → default_bare_filename_to_desktop (default_bare_filename_to_desktop path desktop) desktop
      ≡ default_bare_filename_to_desktop path desktop
default_bare_filename-twice path desktop = elim (default-cases path desktop) [
  | inl e ↦ ap (λ p. default_bare_filename_to_desktop p desktop) e
  | inr h ↦ kept _ desktop h
]
