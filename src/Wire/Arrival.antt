-- ===== src/Wire/Arrival.antt =====
-- The two loops over `recv` on a message that arrives in chunks, however it is cut.
use mathlib.Core.Option
use droidcli.Common.{
  ℕ, ◌≤◌, ◌<◌, false, Option, none, some, List, [], ◌∷◌, ◌++◌, append_assoc, append-nil, ◌≡◌, refl,
  sym, ◌∙◌, ap, subst, arith, Bytes, concat, is_empty, length, length-append, Option-cases, inl,
  inr, pos,
}
use droidcli.Wire.{blank_line, cut_at, receive_head, receive_body}
use droidcli.Wire.Chunks.{NonEmpty, cut_at-more}

-- The head has arrived, and what is behind it has arrived or is still to come.
pub record Arrived (head behind : Bytes) (o : Option (Bytes × (Bytes × List Bytes))) : Type 0 where
  pub prefix : Bytes
  pub chunks : List Bytes
  pub nonempty : NonEmpty chunks
  pub all_of_it : prefix ++ concat chunks ≡ behind
  pub received : o ≡ some (head, (prefix, chunks))

head_here :
    (limit : ℕ) (buffer c : Bytes) (cs : List Bytes) (h r : Bytes)
    → cut_at blank_line buffer ≡ some (h, r)
    → receive_head limit buffer (c ∷ cs) ≡ some (h, (r, c ∷ cs))
unfolding receive_head
head_here limit buffer c cs h r e = rw (e, receive_head) refl

head_later :
    (limit : ℕ) (buffer c : Bytes) (cs : List Bytes)
    → cut_at blank_line buffer ≡ none
    → is_empty c ≡ false
    → length (buffer ++ c) ≤ limit
    → receive_head limit buffer (c ∷ cs) ≡ receive_head limit (buffer ++ c) cs
unfolding receive_head
head_later limit buffer c cs e n l = ground arith

head_end :
    (limit : ℕ) (buffer h r : Bytes)
    → cut_at blank_line buffer ≡ some (h, r)
    → receive_head limit buffer [] ≡ some (h, (r, []))
unfolding receive_head
head_end limit buffer h r e = rw (e, receive_head) refl

regroup : (a b c : Bytes) (n : ℕ) → length (a ++ (b ++ c)) ≤ n → length ((a ++ b) ++ c) ≤ n
regroup a b c n l = omega (arith, l, ap length (append_assoc a b c))

fits : (a b c : Bytes) (n : ℕ) → length (a ++ (b ++ c)) ≤ n → length (a ++ b) ≤ n
fits a b c n l = omega (arith, regroup a b c n l, length-append {0} (a ++ b) c)

-- Within the limit, the loop over the head ends at the blank line.
pub receive_head-Arrived :
    (limit : ℕ) (buffer : Bytes) (cs : List Bytes) (h r : Bytes)
    → NonEmpty cs
    → length (buffer ++ concat cs) ≤ limit
    → cut_at blank_line (buffer ++ concat cs) ≡ some (h, r)
    → Arrived h r (receive_head limit buffer cs)
receive_head-Arrived limit buffer [] h r n l e = record {
  prefix = r;
  chunks = [];
  nonempty = tt;
  all_of_it = append-nil r;
  received = head_end limit buffer h r (ap (cut_at blank_line) (sym (append-nil buffer)) ∙ e);
}
receive_head-Arrived limit buffer (c ∷ cs) h r (n, ns) l e =
    elim (Option-cases (cut_at blank_line buffer)) [
      | inl m ↦
          subst (Arrived h r)
            (sym (head_later limit buffer c cs m n (fits buffer c (concat cs) limit l)))
            (receive_head-Arrived limit (buffer ++ c) cs h r ns
              (regroup buffer c (concat cs) limit l)
              (ap (cut_at blank_line) (append_assoc buffer c (concat cs)) ∙ e))
      | inr ((g, s), m) ↦
          let p =
            Option.some-injective _ _
              (sym (cut_at-more blank_line buffer (concat (c ∷ cs)) g s m) ∙ e) in
          record {
            prefix = s;
            chunks = c ∷ cs;
            nonempty = (n, ns);
            all_of_it = ap (λ q. q.1) p;
            received = head_here limit buffer c cs g s m ∙ ap (λ q. some (q.0, (s, c ∷ cs))) p;
          }
    ]

body_end :
    (n : ℕ) (body c : Bytes) (cs : List Bytes)
    → n ≤ length body
    → receive_body (pos n) body (c ∷ cs) ≡ body
unfolding receive_body
body_end n body c cs l = ground arith

body_more :
    (n : ℕ) (body c : Bytes) (cs : List Bytes)
    → length body < n
    → is_empty c ≡ false
    → receive_body (pos n) body (c ∷ cs) ≡ receive_body (pos n) (body ++ c) cs
unfolding receive_body
body_more n body c cs l e = ground arith

nonempty-length : (c : Bytes) → is_empty c ≡ false → 0 < length c
nonempty-length [] e = cc
nonempty-length (x ∷ c) e = omega arith

arrived-append :
    (body c rest r : Bytes) → body ++ (c ++ rest) ≡ r → is_empty c ≡ false → length body < length r
arrived-append body c rest r e n = omega (
  arith,
  ap length e,
  length-append {0} body (c ++ rest),
  length-append {0} c rest,
  nonempty-length c n,
)

-- The loop over the body ends with all of it, where its length was announced.
pub receive_body_lem :
    (body : Bytes) (cs : List Bytes) (r : Bytes)
    → NonEmpty cs
    → body ++ concat cs ≡ r
    → receive_body (pos (length r)) body cs ≡ r
receive_body_lem body [] r n e = unfold receive_body in (sym (append-nil body) ∙ e)
receive_body_lem body (c ∷ cs) r (n, ns) e =
    body_more (length r) body c cs (arrived-append body c (concat cs) r e n) n
    ∙ receive_body_lem (body ++ c) cs r ns (append_assoc body c (concat cs) ∙ e)
