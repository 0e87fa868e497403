-- ===== src/Guards/Desktop.antt =====
-- src/reliability/path_guards.cpp: the substitution of a bare desktop token.
use droidcli.Common.{
  ℕ, zero, suc, ◌-◌, Bool, true, false, ◌&&◌, ◌||◌, none, some, [], ◌∷◌, ◌++◌, append_assoc,
  append-nil, ◌≡◌, refl, sym, ◌∙◌, ap, arith, Bytes, codes, strip, after, is_some, is_empty, length,
  take, get_elem?, ◌==◌, leb, if◌then◌else◌,
}
use droidcli.Guards.{to_lower_ascii, lower_char, is_path_separator}

abbrev pub holds_at : Bytes → ℕ → (ℕ → Bool) → Bool
holds_at args i p = elim (get_elem? args i) [ some c ↦ p c | none ↦ false ]

abbrev pub leading_separator : Bytes → ℕ → Bool
leading_separator args cursor = cursor == 1 && holds_at args 0 is_path_separator

abbrev pub leading_dot_separator : Bytes → ℕ → Bool
leading_dot_separator args cursor =
    cursor == 2 && holds_at args 0 (λ c. c == b'.') && holds_at args 1 is_path_separator

abbrev pub ends_word : ℕ → Bool
ends_word c = c == b' ' || c == b'"' || c == 39

unfoldable pub at_word_boundary : Bytes → ℕ → Bool
at_word_boundary args cursor =
    cursor == 0
    || holds_at args (cursor - 1) ends_word
    || leading_separator args cursor
    || leading_dot_separator args cursor

abbrev pub matches_slash : Bytes → Bool
matches_slash rest = is_some (strip (codes "desktop/") (to_lower_ascii rest))

abbrev pub matches_backslash : Bytes → Bool
matches_backslash rest = is_some (strip (codes "desktop\\") (to_lower_ascii rest))

unfoldable pub token_at : Bytes → ℕ → Bytes → Bool
unfolding at_word_boundary strip to_lower_ascii
token_at args cursor rest =
    at_word_boundary args cursor && (matches_slash rest || matches_backslash rest)

-- The result at a token: without the prefix that leads up to it, and with the desktop's path.
unfoldable pub substituted : Bytes → Bytes → ℕ → Bytes → Bytes → Bytes
unfolding strip to_lower_ascii
substituted args desktop_path cursor rest result =
    (if (leading_separator args cursor || leading_dot_separator args cursor)
        && leb cursor (length result)
      then take (length result - cursor) result
      else result)
    ++ (desktop_path ++ (if matches_slash rest then codes "/" else codes "\\"))

-- The loop, with the text from the cursor on. `skip` counts the bytes of a token that are still to be
-- passed over.
unfoldable pub substitute_from : Bytes → Bytes → ℕ → ℕ → Bytes → Bytes → Bytes
unfolding token_at substituted
substitute_from args desktop_path cursor skip [] result = result
substitute_from args desktop_path cursor (suc skip) (c ∷ s) result =
    substitute_from args desktop_path (suc cursor) skip s result
substitute_from args desktop_path cursor zero (c ∷ s) result = elim (token_at args cursor (c ∷ s)) [
  | true ↦
      substitute_from args desktop_path (suc cursor) 7 s
        (substituted args desktop_path cursor (c ∷ s) result)
  | false ↦ substitute_from args desktop_path (suc cursor) 0 s (result ++ c ∷ [])
]

unfoldable pub substitute_bare_desktop_token : Bytes → Bytes → Bytes
unfolding substitute_from
substitute_bare_desktop_token args desktop_path =
    if is_empty desktop_path then args else substitute_from args desktop_path 0 0 args []

strip_of_after : (n s : Bytes) → after n s ≡ none → strip n s ≡ none
unfolding after
strip_of_after n [] h = h
strip_of_after n (c ∷ s) h = ground arith

after_tail : (n : Bytes) (c : ℕ) (s : Bytes) → after n (c ∷ s) ≡ none → after n s ≡ none
unfolding after
after_tail n c s h = ground arith

-- The text has no desktop token, in any case.
pub record NoToken (s : Bytes) : Type 0 where
  pub no_slash : after (codes "desktop/") (to_lower_ascii s) ≡ none
  pub no_backslash : after (codes "desktop\\") (to_lower_ascii s) ≡ none

NoToken-tail : (c : ℕ) (s : Bytes) → NoToken (c ∷ s) → NoToken s
unfolding to_lower_ascii
NoToken-tail c s h = record {
  no_slash = after_tail (codes "desktop/") (lower_char c) (to_lower_ascii s) h.no_slash;
  no_backslash = after_tail (codes "desktop\\") (lower_char c) (to_lower_ascii s) h.no_backslash;
}

and_false : (b : Bool) → (b && false) ≡ false
and_false true = refl
and_false false = refl

NoToken-head : (args : Bytes) (cursor : ℕ) (s : Bytes) → NoToken s → token_at args cursor s ≡ false
unfolding token_at
NoToken-head args cursor s h =
    ap (λ o. at_word_boundary args cursor && (is_some o || matches_backslash s))
      (strip_of_after (codes "desktop/") (to_lower_ascii s) h.no_slash)
    ∙ ap (λ o. at_word_boundary args cursor && (false || is_some o))
        (strip_of_after (codes "desktop\\") (to_lower_ascii s) h.no_backslash)
    ∙ and_false (at_word_boundary args cursor)

passes :
    (args desktop_path : Bytes) (cursor c : ℕ) (s result : Bytes)
    → token_at args cursor (c ∷ s) ≡ false
    → substitute_from args desktop_path cursor 0 (c ∷ s) result
      ≡ substitute_from args desktop_path (suc cursor) 0 s (result ++ c ∷ [])
unfolding substitute_from
passes args desktop_path cursor c s result e = ground arith

copies :
    (args desktop_path : Bytes) (cursor : ℕ) (s result : Bytes)
    → NoToken s
    → substitute_from args desktop_path cursor 0 s result ≡ result ++ s
copies args desktop_path cursor [] result h = unfold substitute_from in sym (append-nil result)
copies args desktop_path cursor (c ∷ s) result h =
    passes args desktop_path cursor c s result (NoToken-head args cursor (c ∷ s) h)
    ∙ copies args desktop_path (suc cursor) s (result ++ c ∷ []) (NoToken-tail c s h)
    ∙ append_assoc result (c ∷ []) s

-- A text with no "desktop/" and no "desktop\" in it, in upper or lower case, comes back as it is.
pub substitute-NoToken :
    (args desktop_path : Bytes)
    → NoToken args
    → substitute_bare_desktop_token args desktop_path ≡ args
unfolding substitute_bare_desktop_token
substitute-NoToken args [] h = refl
substitute-NoToken args (c ∷ d) h = copies args (c ∷ d) 0 args [] h
