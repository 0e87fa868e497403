-- ===== src/Tasks/Every.antt =====
-- What holds of every task of a queue, through the operations of src/app/tasks.cpp.
use mathlib.Core.Option
use droidcli.Common.{
  ℕ, zero, suc, true, false, Option, none, some, [], ◌∷◌, ◌≡◌, inl, inr, sym, subst, Bytes, same,
  length, All, Bool-cases, ℤ,
}
use droidcli.Tasks.{
  Task, Queue, erase_first, trim, trim_history, is_claimable, claimed, claim_next, update_first,
  trimmed,
}
use droidcli.Tasks.History.{head, behind, erasure, fits, stops, erases, round}
use droidcli.Tasks.Claims.{claim_here, claim_later}

module _ (P : Task → Type 0) where
  erase_first-All : (q r : Queue) → erase_first q ≡ some r → All P q → All P r
  erase_first-All [] r e h = absurd (Option.none-ne-some r (unfold erase_first in e))
  erase_first-All (t ∷ q) r e (p, h) = elim (erasure t q r e) [
    | head _ d ↦ subst (All P) d h
    | behind s _ g d ↦ subst (All P) d (p, erase_first-All q s g h)
  ]

  trim-All : (f : ℕ) (q : Queue) → All P q → All P (trim f q)
  trim-All zero q h = unfold trim in h
  trim-All (suc f) q h = elim (round f q) [
    | fits _ e ↦ subst (All P) (sym e) h
    | stops _ e ↦ subst (All P) (sym e) h
    | erases r _ p e ↦ subst (All P) (sym e) (trim-All f r (erase_first-All q r p h))
  ]

  pub trim_history-All : (q : Queue) → All P q → All P (trim_history q)
  unfolding trim_history
  trim_history-All q = trim-All (length q) q

update_here :
    (f : Task → Task) (id : Bytes) (t : Task) (q : Queue)
    → same t.id id ≡ true
    → update_first f id (t ∷ q) ≡ some (f t ∷ q)
unfolding update_first
update_here f id t q e = rw e

update_later :
    (f : Task → Task) (id : Bytes) (t : Task) (q : Queue)
    → same t.id id ≡ false
    → update_first f id (t ∷ q) ≡ Option.map (λ r. t ∷ r) (update_first f id q)
unfolding update_first
update_later f id t q e = rw e

module _ (P : Task → Type 0) (f : Task → Task) (keeps : (t : Task) → P t → P (f t)) where
  AllOf : Option Queue → Type 0
  AllOf none = Unit
  AllOf (some r) = All P r

  AllOf-map : (t : Task) (o : Option Queue) → P t → AllOf o → AllOf (Option.map (λ r. t ∷ r) o)
  unfolding AllOf
  AllOf-map t none p h = tt
  AllOf-map t (some r) p h = (p, h)

  update_first-All : (id : Bytes) (q : Queue) → All P q → AllOf (update_first f id q)
  update_first-All id [] h = unfold update_first AllOf in tt
  update_first-All id (t ∷ q) (p, h) = elim (Bool-cases (same t.id id)) [
    | inl e ↦ subst AllOf (sym (update_here f id t q e)) (unfold AllOf in (keeps t p, h))
    | inr e ↦
        subst AllOf (sym (update_later f id t q e)) (AllOf-map t _ p (update_first-All id q h))
  ]

  trimmed-AllOf : (q : Queue) (o : Option Queue) → All P q → AllOf o → All P (trimmed q o).0
  unfolding AllOf
  trimmed-AllOf q none h g = h
  trimmed-AllOf q (some r) h g = trim_history-All P r g

  -- The shape of `complete`, `fail` and `cancel`.
  pub trimmed-All : (id : Bytes) (q : Queue) → All P q → All P (trimmed q (update_first f id q)).0
  trimmed-All id q h = trimmed-AllOf q (update_first f id q) h (update_first-All id q h)

pub claim_next-All :
    (P : Task → Type 0) (now : ℤ)
    → ((t : Task) → P t → P (claimed now t))
    → (q : Queue) → All P q
    → All P (claim_next now q).0
claim_next-All P now keeps [] h = unfold claim_next in tt
claim_next-All P now keeps (t ∷ q) (p, h) = elim (Bool-cases (is_claimable now t)) [
  | inl e ↦ rw (claim_here now t q e) (keeps t p, h)
  | inr e ↦ rw (claim_later now t q e) (p, claim_next-All P now keeps q h)
]
