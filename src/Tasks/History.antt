-- ===== src/Tasks/History.antt =====
-- `trim_history` of src/app/tasks.cpp: what it erases, what it keeps, and that its fuel is enough.
use mathlib.Core.Option
use droidcli.Common.{
  ℕ, zero, suc, ◌+◌, ◌-◌, ◌≤◌, ◌<◌, true, false, none, some, [], ◌∷◌, ◌≡◌, ◌⊎◌, inl, inr, refl, sym,
  ◌∙◌, ap, arith, All, length, ltb, if◌then◌else◌, Bool-cases, Option-cases, subst,
}
use droidcli.Tasks.{Task, Queue, max_history_entries, is_finished, erase_first, trim, trim_history}

-- The reference: the first `k` finished tasks are left out.
unfoldable pub without_oldest : ℕ → Queue → Queue
without_oldest zero q = q
without_oldest (suc k) [] = []
without_oldest (suc k) (t ∷ q) =
    let shorter = without_oldest k q in
    let kept = without_oldest (suc k) q in if is_finished t then shorter else t ∷ kept

-- The tasks that are not finished, in order.
unfoldable pub unfinished : Queue → Queue
unfinished [] = []
unfinished (t ∷ q) = let rest = unfinished q in if is_finished t then rest else t ∷ rest

abbrev pub NoneFinished : Queue → Type 0
NoneFinished q = All (λ t. is_finished t ≡ false) q

without_oldest-none : (k : ℕ) (q : Queue) → erase_first q ≡ none → without_oldest k q ≡ q
unfolding without_oldest erase_first
without_oldest-none zero q h = refl
without_oldest-none (suc k) [] h = refl
without_oldest-none (suc k) (t ∷ q) h = elim (Bool-cases (is_finished t)) [
  | inl e ↦ ground arith
  | inr e ↦ ground (arith, without_oldest-none (suc k) q)
]

-- What one erasure does.
record Erased (q r : Queue) : Type 0 where
  shorter : length q ≡ suc (length r)
  same_unfinished : unfinished r ≡ unfinished q
  next_oldest : (k : ℕ) → without_oldest (suc k) q ≡ without_oldest k r

Erased-cons : (t : Task) (q r : Queue) → is_finished t ≡ false → Erased q r → Erased (t ∷ q) (t ∷ r)
Erased-cons t q r e h = record {
  shorter = omega (arith, h.shorter);
  same_unfinished = unfold unfinished in rw (e, h.same_unfinished);
  next_oldest = next;
}
  where
    next : (k : ℕ) → without_oldest (suc k) (t ∷ q) ≡ without_oldest k (t ∷ r)
    next zero = unfold without_oldest in rw e (ap (λ s. t ∷ s) (h.next_oldest zero))
    next (suc k) = unfold without_oldest in rw e (ap (λ s. t ∷ s) (h.next_oldest (suc k)))

erase_first_head : (t : Task) (q : Queue) → is_finished t ≡ true → erase_first (t ∷ q) ≡ some q
unfolding erase_first
erase_first_head t q e = rw e

erase_first_tail :
    (t : Task) (q : Queue)
    → is_finished t ≡ false
    → erase_first (t ∷ q) ≡ Option.map (λ r. t ∷ r) (erase_first q)
unfolding erase_first
erase_first_tail t q e = rw e

Erased-head : (t : Task) (q : Queue) → is_finished t ≡ true → Erased (t ∷ q) q
Erased-head t q e = record {
  shorter = refl;
  same_unfinished = unfold unfinished in rw e;
  next_oldest = λ k. unfold without_oldest in rw e;
}

-- Which task `erase_first` erases.
pub data Erasure (t : Task) (q r : Queue) : Type 0 where
  head : is_finished t ≡ true → q ≡ r → Erasure t q r
  behind : (s : Queue) → is_finished t ≡ false → erase_first q ≡ some s → t ∷ s ≡ r → Erasure t q r

pub erasure : (t : Task) (q r : Queue) → erase_first (t ∷ q) ≡ some r → Erasure t q r
erasure t q r h = elim (Bool-cases (is_finished t)) [
  | inl e ↦ head e (Option.some-injective _ _ (sym (erase_first_head t q e) ∙ h))
  | inr e ↦ elim (Option-cases (erase_first q)) [
    | inl p ↦ absurd (
        Option.none-ne-some _
          (sym (ap (Option.map (λ s. t ∷ s)) p) ∙ sym (erase_first_tail t q e) ∙ h))
    | inr (s, p) ↦ behind s e p (
        Option.some-injective _ _
          (sym (ap (Option.map (λ s. t ∷ s)) p) ∙ sym (erase_first_tail t q e) ∙ h))
  ]
]

erase_first-Erased : (q r : Queue) → erase_first q ≡ some r → Erased q r
erase_first-Erased [] r h = unfold erase_first in cc h
erase_first-Erased (t ∷ q) r h = elim (erasure t q r h) [
  | head e p ↦ subst (Erased (t ∷ q)) p (Erased-head t q e)
  | behind s e p d ↦ subst (Erased (t ∷ q)) d (Erased-cons t q s e (erase_first-Erased q s p))
]

erase_first-none : (q : Queue) → erase_first q ≡ none → NoneFinished q
erase_first-none [] h = tt
erase_first-none (t ∷ q) h = elim (Bool-cases (is_finished t)) [
  | inl e ↦ absurd (Option.some-ne-none q (sym (erase_first_head t q e) ∙ h))
  | inr e ↦
      (e, erase_first-none q ((Option.map-eq-none_iff _ _).0 (sym (erase_first_tail t q e) ∙ h)))
]

none_over : (k : ℕ) (q : Queue) → k ≡ 0 → without_oldest k q ≡ q
none_over k q e = unfold without_oldest in rw e

one_over :
    (k : ℕ) (q r : Queue)
    → Erased q r
    → k ≡ suc (length r - max_history_entries)
    → without_oldest (length r - max_history_entries) r ≡ without_oldest k q
one_over k q r h e = rw e (sym (h.next_oldest (length r - max_history_entries)))

-- One round of the outer loop.
pub data Round (f : ℕ) (q : Queue) : Type 0 where
  fits : length q ≤ max_history_entries → trim (suc f) q ≡ q → Round f q
  stops : erase_first q ≡ none → trim (suc f) q ≡ q → Round f q
  erases :
      (r : Queue)
      → max_history_entries < length q
      → erase_first q ≡ some r
      → trim (suc f) q ≡ trim f r
      → Round f q

pub round : (f : ℕ) (q : Queue) → Round f q
round f q = elim (Option-cases (erase_first q)) [
  | inl p ↦ stops p (unfold trim in ground arith)
  | inr (r, p) ↦ elim (Bool-cases (ltb max_history_entries (length q))) [
    | inl over ↦ erases r (ground arith) p (unfold trim in ground arith)
    | inr under ↦ fits (ground arith) (unfold trim in ground arith)
  ]
]

-- The loop, for any fuel that covers what is over the limit.
trim-without_oldest :
    (f : ℕ) (q : Queue)
    → length q ≤ f + max_history_entries
    → trim f q ≡ without_oldest (length q - max_history_entries) q
trim-without_oldest zero q h = unfold trim in sym (none_over _ q (omega arith))
trim-without_oldest (suc f) q h = elim (round f q) [
  | fits le e ↦ e ∙ sym (none_over _ q (omega arith))
  | stops p e ↦ e ∙ sym (without_oldest-none _ q p)
  | erases r over p e ↦
      let er = erase_first-Erased q r p in
      e
      ∙ trim-without_oldest f r (omega (arith, er.shorter))
      ∙ one_over _ q r er (omega (arith, er.shorter))
]

-- Trimming leaves out the oldest finished tasks, as many of them as the queue is over its limit.
pub trim_history-without_oldest :
    (q : Queue) → trim_history q ≡ without_oldest (length q - max_history_entries) q
unfolding trim_history
trim_history-without_oldest q = trim-without_oldest (length q) q (omega arith)

trim-unfinished : (f : ℕ) (q : Queue) → unfinished (trim f q) ≡ unfinished q
trim-unfinished zero q = unfold trim in refl
trim-unfinished (suc f) q = elim (round f q) [
  | fits le e ↦ ap unfinished e
  | stops p e ↦ ap unfinished e
  | erases r over p e ↦
      ap unfinished e ∙ trim-unfinished f r ∙ (erase_first-Erased q r p).same_unfinished
]

abbrev pub IsTrimmed : Queue → Type 0
IsTrimmed q = (length q ≤ max_history_entries) ⊎ NoneFinished q

trim-IsTrimmed : (f : ℕ) (q : Queue) → length q ≤ f + max_history_entries → IsTrimmed (trim f q)
trim-IsTrimmed zero q h = unfold trim in inl (omega arith)
trim-IsTrimmed (suc f) q h = elim (round f q) [
  | fits le e ↦ subst IsTrimmed (sym e) (inl le)
  | stops p e ↦ subst IsTrimmed (sym e) (inr (erase_first-none q p))
  | erases r over p e ↦
      subst IsTrimmed (sym e)
        (trim-IsTrimmed f r (omega (arith, (erase_first-Erased q r p).shorter)))
]

-- Trimming keeps every task that is not finished, in order, and leaves at most 256 tasks unless no
-- finished task is left to erase.
pub trim_history_keeps :
    (q : Queue) → (unfinished (trim_history q) ≡ unfinished q) × IsTrimmed (trim_history q)
unfolding trim_history
trim_history_keeps q = (trim-unfinished (length q) q, trim-IsTrimmed (length q) q (omega arith))
