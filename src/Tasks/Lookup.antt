-- ===== src/Tasks/Lookup.antt =====
-- `find` of src/app/tasks.cpp after the operations that change one task and trim the history.
use mathlib.Core.Option
use droidcli.Common.{
  ℕ, zero, suc, ◌≤◌, true, false, none, some, [], ◌∷◌, ◌≡◌, ◌≢◌, inl, inr, refl, sym, ◌∙◌, ap,
  arith, Bytes, same, same_iff, length, Bool-cases,
}
use droidcli.Tasks.{
  Task, Queue, max_history_entries, is_finished, erase_first, trim, trim_history, update_first,
  find,
}
use droidcli.Tasks.History.{fits, stops, erases, round, head, behind, erasure}

find_head : (j : Bytes) (t : Task) (q : Queue) → same t.id j ≡ true → find j (t ∷ q) ≡ some t
unfolding find
find_head j t q e = rw e

find_tail : (j : Bytes) (t : Task) (q : Queue) → same t.id j ≡ false → find j (t ∷ q) ≡ find j q
unfolding find
find_tail j t q e = rw e

-- A task that is not finished is found as before.
find-erase_first :
    (j : Bytes) (t : Task) (q r : Queue)
    → erase_first q ≡ some r
    → is_finished t ≡ false
    → find j q ≡ some t
    → find j r ≡ some t
find-erase_first j t [] r h u e = unfold find in cc e
find-erase_first j t (s ∷ q) r h u e = elim (Bool-cases (same s.id j)) [
  | inl here ↦
      let p = Option.some-injective _ _ (sym (find_head j s q here) ∙ e) in
      elim (erasure s q r h) [
        | head f _ ↦ cc (f, u, ap is_finished p)
        | behind q' f _ d ↦ ap (find j) (sym d) ∙ find_head j s q' here ∙ ap some p
      ]
  | inr there ↦
      let p = sym (find_tail j s q there) ∙ e in
      elim (erasure s q r h) [
        | head f d ↦ ap (find j) (sym d) ∙ p
        | behind q' f g d ↦
            ap (find j) (sym d) ∙ find_tail j s q' there ∙ find-erase_first j t q q' g u p
      ]
]

find-trim :
    (j : Bytes) (t : Task) (f : ℕ) (q : Queue)
    → is_finished t ≡ false
    → find j q ≡ some t
    → find j (trim f q) ≡ some t
find-trim j t zero q u e = unfold trim in e
find-trim j t (suc f) q u e = elim (round f q) [
  | fits _ d ↦ ap (find j) d ∙ e
  | stops _ d ↦ ap (find j) d ∙ e
  | erases r _ p d ↦ ap (find j) d ∙ find-trim j t f r u (find-erase_first j t q r p u e)
]

pub find-trim_history :
    (j : Bytes) (t : Task) (q : Queue)
    → is_finished t ≡ false
    → find j q ≡ some t
    → find j (trim_history q) ≡ some t
unfolding trim_history
find-trim_history j t q = find-trim j t (length q) q

trim_under : (f : ℕ) (q : Queue) → length q ≤ max_history_entries → trim f q ≡ q
trim_under zero q h = unfold trim in refl
trim_under (suc f) q h = elim (round f q) [
  | fits _ d ↦ d
  | stops _ d ↦ d
  | erases r over _ _ ↦ absurd (omega arith)
]

pub trim_history_under : (q : Queue) → length q ≤ max_history_entries → trim_history q ≡ q
unfolding trim_history
trim_history_under q = trim_under (length q) q

-- The first task with the id is changed, and the others are not.
pub record Updated (f : Task → Task) (id : Bytes) (t : Task) (q r : Queue) : Type 0 where
  pub result : update_first f id q ≡ some r
  pub there : find id r ≡ some (f t)
  pub others : (j : Bytes) → j ≢ id → find j r ≡ find j q
  pub size : length r ≡ length q

Updated-here :
    (f : Task → Task) (id : Bytes) (t s : Task) (q : Queue)
    → (f s).id ≡ s.id
    → same s.id id ≡ true
    → s ≡ t
    → Updated f id t (s ∷ q) (f s ∷ q)
Updated-here f id t s q keeps here p = record {
  result = unfold update_first in rw here;
  there = find_head id (f s) q (rw keeps here) ∙ ap (λ x. some (f x)) p;
  others = λ j d.
      let miss : same s.id j ≡ false = ground (arith, same_iff s.id j, same_iff s.id id) in
      find_tail j (f s) q (rw keeps miss) ∙ sym (find_tail j s q miss);
  size = refl;
}

Updated-there :
    (f : Task → Task) (id : Bytes) (t s : Task) (q r : Queue)
    → same s.id id ≡ false
    → Updated f id t q r
    → Updated f id t (s ∷ q) (s ∷ r)
Updated-there f id t s q r there u = record {
  result = unfold update_first in rw (there, u.result);
  there = find_tail id s r there ∙ u.there;
  others = λ j d. unfold find in ground (arith, u.others j d);
  size = ap suc u.size;
}

pub update_first_some :
    (f : Task → Task) (id : Bytes) (t : Task) (q : Queue)
    → ((s : Task) → (f s).id ≡ s.id)
    → find id q ≡ some t
    → (r : Queue) × Updated f id t q r
update_first_some f id t [] keeps e = absurd (Option.none-ne-some t (unfold find in e))
update_first_some f id t (s ∷ q) keeps e = elim (Bool-cases (same s.id id)) [
  | inl here ↦ (
    f s ∷ q,
    Updated-here f id t s q (keeps s) here
        (Option.some-injective _ _ (sym (find_head id s q here) ∙ e)),
  )
  | inr there ↦
      let (r, u) = update_first_some f id t q keeps (sym (find_tail id s q there) ∙ e) in
      (s ∷ r, Updated-there f id t s q r there u)
]

-- There is nothing to change where the id is unknown.
pub update_first-none :
    (f : Task → Task) (id : Bytes) (q : Queue) → find id q ≡ none → update_first f id q ≡ none
unfolding find update_first
update_first-none f id [] e = refl
update_first-none f id (s ∷ q) e = ground (arith, update_first-none f id q)
