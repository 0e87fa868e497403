-- ===== src/Processes/Groups.antt =====
-- Where the process groups go that the manager has forked.
use droidcli.Common.{
  ℕ, ◌+◌, ◌≡◌, refl, ap, arith, Bool, true, Option, none, some, List, [], ◌∷◌, ◌++◌, Bytes, same,
  ltb, ◌==◌, if◌then◌else◌, Bool-cases, inl, inr,
}
use droidcli.Processes.{
  Entry, ProcessManager, ProcessInfo, no_processes, less, entry_at, put_entry, group_of,
  stop_locked, refresh_locked, ended_of, refresh_all, all_ended, process_snapshot, launched,
  forked_of, launch, has_key, stopped_at, stop, new_info,
}

-- How often a group stands in a list.
unfoldable pub count : ℕ → List ℕ → ℕ
count g [] = 0
count g (x ∷ xs) = (if x == g then 1 else 0) + count g xs

count-append : (g : ℕ) (xs ys : List ℕ) → count g (xs ++ ys) ≡ count g xs + count g ys
unfolding count
count-append g [] ys = omega arith
count-append g (x ∷ xs) ys = omega (arith, count-append g xs ys)

-- The groups that the entries hold.
unfoldable pub live : List Entry → List ℕ
live [] = []
live (e ∷ es) = group_of e ++ live es

-- Every group that was forked is held by an entry, or was signalled, or was found ended: exactly one of these
-- for each time that it was forked.
pub record IsAccounted (m : ProcessManager) : Type 0 where
  pub balance :
      (g : ℕ) → count g m.forked ≡ count g (live m.entries) + count g m.signalled + count g m.ended

put_entry-live :
    (g : ℕ) (key : Bytes) (e : Entry) (es : List Entry)
    → count g (live (put_entry key e es)) + count g (group_of (entry_at key es))
      ≡ count g (live es) + count g (group_of e)
unfolding put_entry entry_at live
put_entry-live g key e [] = unfold count in omega (arith, count-append g (group_of e) [])
put_entry-live g key e (x ∷ es) = elim (Bool-cases (same key x.info.key)) [
  | inl m ↦
      rw m (
        omega (arith, count-append g (group_of e) (live es), count-append g (group_of x) (live es)))
  | inr m ↦ elim (Bool-cases (less key x.info.key)) [
    | inl l ↦
        rw (m, l)
          (unfold count in
            omega (
              arith,
              count-append g (group_of e) (group_of x ++ live es),
              count-append g (group_of x) (live es),
            ))
    | inr l ↦
        rw (m, l)
          (omega (
            arith,
            count-append g (group_of x) (live (put_entry key e es)),
            count-append g (group_of x) (live es),
            put_entry-live g key e es,
          ))
  ]
]

refresh_one :
    (g : ℕ) (alive : ℕ → Bool) (e : Entry)
    → count g (group_of (refresh_locked alive e)) + count g (ended_of alive e)
      ≡ count g (group_of e)
unfolding refresh_locked count
refresh_one g alive e = elim (Bool-cases (ltb 0 e.pgid)) [
  | inl m ↦ elim (Bool-cases (alive e.info.pid)) [
    | inl a ↦ rw (m, a) (rw m (omega arith))
    | inr a ↦ rw (m, a) (omega arith)
  ]
  | inr m ↦ rw m (rw m (omega arith))
]

refresh_all-live :
    (g : ℕ) (alive : ℕ → Bool) (es : List Entry)
    → count g (live (refresh_all alive es)) + count g (all_ended alive es) ≡ count g (live es)
unfolding live refresh_all all_ended
refresh_all-live g alive [] = unfold count in refl
refresh_all-live g alive (e ∷ es) = omega (
  arith,
  count-append g (group_of (refresh_locked alive e)) (live (refresh_all alive es)),
  count-append g (ended_of alive e) (all_ended alive es),
  count-append g (group_of e) (live es),
  refresh_one g alive e,
  refresh_all-live g alive es,
)

-- `fork` gives no process 0.
abbrev pub IsFork : Option ℕ → Type 0
IsFork none = Unit {0}
IsFork (some pid) = ltb 0 pid ≡ true

launched-live :
    (g : ℕ) (info : ProcessInfo) (o : Option ℕ)
    → IsFork o
    → count g (group_of (launched info o)) ≡ count g (forked_of o)
launched-live g info none h = refl
launched-live g info (some pid) h = rw h refl

stopped-live : (g : ℕ) (e : Entry) → count g (group_of (stop_locked e)) ≡ 0
unfolding stop_locked count
stopped-live g e = elim (Bool-cases (ltb 0 e.pgid)) [ inl m ↦ rw m refl | inr m ↦ rw m (rw m refl) ]

-- What the host does with its processes, in any order.
pub data Step (m : ProcessManager) : ProcessManager → Type 0 where
  launches :
      (o : Option ℕ) (key label working_dir command : Bytes)
      → IsFork o
      → Step m (launch o key label working_dir command m).1
  stops : (key : Bytes) → Step m (stop key m).1
  polls : (alive : ℕ → Bool) → Step m (process_snapshot alive m).1

pub data Reach : ProcessManager → Type 0 where
  start : Reach no_processes
  next : (m n : ProcessManager) → Reach m → Step m n → Reach n

launch-IsAccounted :
    (o : Option ℕ) (key label working_dir command : Bytes) (m : ProcessManager)
    → IsFork o
    → IsAccounted m
    → IsAccounted (launch o key label working_dir command m).1
unfolding launch
launch-IsAccounted o key label working_dir command m f h = record {
  balance = λ g.
      let info = new_info key label working_dir command in
      omega (
        arith,
        h.balance g,
        count-append g m.forked (forked_of o),
        count-append g m.signalled (group_of (entry_at key m.entries)),
        put_entry-live g key (launched info o) m.entries,
        launched-live g info o f,
      );
}

group_held : (e : Entry) → ltb 0 e.pgid ≡ true → group_of e ≡ e.pgid ∷ []
group_held e h = rw h refl

stopped_at-IsAccounted :
    (key : Bytes) (m : ProcessManager) → IsAccounted m → IsAccounted (stopped_at key m).1
stopped_at-IsAccounted key m h = elim (Bool-cases (ltb 0 (entry_at key m.entries).pgid)) [
  | inl a ↦
      let e = entry_at key m.entries in
      rw a (record {
        balance = λ g. omega (
          arith,
          h.balance g,
          count-append g m.signalled (e.pgid ∷ []),
          ap (count g) (group_held e a),
          put_entry-live g key (stop_locked e) m.entries,
          stopped-live g e,
        );
      })
  | inr a ↦ rw a h
]

process_snapshot-IsAccounted :
    (alive : ℕ → Bool) (m : ProcessManager)
    → IsAccounted m
    → IsAccounted (process_snapshot alive m).1
unfolding process_snapshot
process_snapshot-IsAccounted alive m h = record {
  balance = λ g. omega (
    arith,
    h.balance g,
    count-append g m.ended (all_ended alive m.entries),
    refresh_all-live g alive m.entries,
  );
}

stop-IsAccounted : (key : Bytes) (m : ProcessManager) → IsAccounted m → IsAccounted (stop key m).1
unfolding stop
stop-IsAccounted key m h = elim (Bool-cases (has_key key m.entries)) [
  | inl a ↦ rw a (stopped_at-IsAccounted key m h)
  | inr a ↦ rw a h
]

Step-IsAccounted : (m n : ProcessManager) → Step m n → IsAccounted m → IsAccounted n
Step-IsAccounted m _ (launches o key label working_dir command f) h =
    launch-IsAccounted o key label working_dir command m f h
Step-IsAccounted m _ (stops key) h = stop-IsAccounted key m h
Step-IsAccounted m _ (polls alive) h = process_snapshot-IsAccounted alive m h

-- However the host launches, stops and polls its processes, every process group that was forked is held by
-- an entry, or was sent SIGTERM, or was found ended, and exactly one of these: none is lost when its key is
-- launched again.
pub Reach-IsAccounted : (m : ProcessManager) → Reach m → IsAccounted m
unfolding live count
Reach-IsAccounted _ start = record { balance = λ g. refl }
Reach-IsAccounted _ (next m n r s) = Step-IsAccounted m n s (Reach-IsAccounted m r)
