-- ===== src/Common/Text.antt =====
-- Byte strings, and what `std::string` offers on them: equality, prefix tests and `find`.
use Prim.Native.Nat.{ℕ}
use Prim.Native.Char.{code}
use Prim.Native.String.{String}
use mathlib.Core.Path.{◌≡◌, refl}
use mathlib.Core.Logic.{◌↔◌, ◌≢◌}
use mathlib.Core.Bool.{Bool, true, false, ◌&&◌}
use mathlib.Core.Option.{Option, none, some}
use mathlib.Core.List.{List, [], ◌∷◌, ◌++◌}
use native.Mathlib.Omega.{arith}
use droidcli.Common.Tests.{◌==◌, if◌then◌else◌}
use droidcli.Common.Lists.{is_some}

abbrev pub Bytes : Type 0
Bytes = List ℕ

-- The bytes of an ASCII literal.
abbrev pub codes : String → Bytes
codes String.[] = []
codes (String.◌∷◌ c s) = code c ∷ codes s

-- What is written to a string stream piece by piece.
abbrev pub concat : List Bytes → Bytes
concat [] = []
concat (x ∷ xs) = x ++ concat xs

-- The elements of an array, a comma between two.
unfoldable pub comma_separated : List Bytes → Bytes
comma_separated [] = []
comma_separated (x ∷ []) = x
comma_separated (x ∷ y ∷ xs) = x ++ (b',' ∷ comma_separated (y ∷ xs))

-- `a == b` on strings
unfoldable pub same : Bytes → Bytes → Bool
same [] [] = true
same [] (b ∷ t) = false
same (a ∷ s) [] = false
same (a ∷ s) (b ∷ t) = (a == b) && same s t

same→eq : (s t : Bytes) → same s t ≡ true → s ≡ t
unfolding same
same→eq [] [] h = refl
same→eq [] (b ∷ t) h = cc
same→eq (a ∷ s) [] h = cc
same→eq (a ∷ s) (b ∷ t) h = ground (arith, same→eq s t)

pub same_refl : (s : Bytes) → same s s ≡ true
unfolding same
same_refl [] = refl
same_refl (a ∷ s) = ground (arith, same_refl s)

pub same_iff : (s t : Bytes) → (same s t ≡ true) ↔ (s ≡ t)
same_iff s t = (same→eq s t, λ e. rw (← e) (same_refl s))

-- what follows `needle`, if the text begins with it
unfoldable pub strip : Bytes → Bytes → Option Bytes
strip [] s = some s
strip (c ∷ n) [] = none
strip (c ∷ n) (d ∷ s) = if c == d then strip n s else none

-- what follows the first occurrence of `needle`: `find`, and the text from there on
unfoldable pub after : Bytes → Bytes → Option Bytes
unfolding strip
after needle [] = strip needle []
after needle (c ∷ s) = elim (strip needle (c ∷ s)) [ some rest ↦ some rest | none ↦ after needle s ]

-- `find(needle) != npos`
unfoldable pub contains : Bytes → Bytes → Bool
unfolding after
contains needle s = is_some (after needle s)

pub strip-append : (n s : Bytes) → strip n (n ++ s) ≡ some s
unfolding strip
strip-append [] s = refl
strip-append (c ∷ n) s = ground (arith, strip-append n s)

pub after_hit : (n s rest : Bytes) → strip n s ≡ some rest → after n s ≡ some rest
unfolding after
after_hit n [] rest h = h
after_hit n (c ∷ s) rest h = ground arith

pub after_miss :
    (n : Bytes) (c : ℕ) (s : Bytes) → strip n (c ∷ s) ≡ none → after n (c ∷ s) ≡ after n s
unfolding after
after_miss n c s h = ground arith

-- A byte that the needle does not begin with is passed over.
pub strip_ne : (a c : ℕ) (n s : Bytes) → a ≢ c → strip (a ∷ n) (c ∷ s) ≡ none
unfolding strip
strip_ne a c n s h = ground arith
