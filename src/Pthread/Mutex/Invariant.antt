-- ===== src/Pthread/Mutex/Invariant.antt =====
-- The invariant of the threads on a mutex of src/pthread.rs, and that every step keeps it.
use rlibc.Common.{
  ℕ, ◌+◌, ◌≤◌, ◌<◌, ◌≡◌, ◌≢◌, ◌⊎◌, inl, inr, refl, Bool, false, Option, none, some, ◌==◌,
  if◌then◌else◌, arith, sym, ap, ◌∙◌,
}
use rlibc.Common.Int.{ℤ, eqb_ℤ}
use rlibc.Common.Threads.{update, total, total-update, total-le, le-total, total_zero, total_pos}
use rlibc.Pthread.{Thread, usize_max, is_owner}
use rlibc.Pthread.Mutex.{LockState, lock_round, wake, mutex_unlock_internal, mutex_recursive}
use rlibc.Pthread.Mutex.System.{
  Pc, outside, sleeping, woken, notifying, after_round, after_unlock, System, move, Step, call_lock,
  resume, spurious, call_unlock, notify, notify_nobody, init, Reach, start, later,
}

abbrev pub holds : Pc → ℕ
holds (outside h) = h
holds (sleeping h) = h
holds (woken h) = h
holds (notifying h) = h

-- Asleep on the condition variable, and not yet told to wake up.
abbrev pub asleep : Pc → ℕ
asleep (sleeping _) = 1
asleep _ = 0

-- About to try the lock again, or about to notify.
abbrev pub due : Pc → ℕ
due (woken _) = 1
due (notifying _) = 1
due _ = 0

-- Counted in `waiter_count`.
abbrev pub waiting : Pc → ℕ
waiting (sleeping _) = 1
waiting (woken _) = 1
waiting _ = 0

-- What the lock says that thread `i` holds.
abbrev pub share : LockState → Thread → ℕ
share l i = if is_owner l.owner i then l.recursion_depth else 0

abbrev DepthFits : Option Thread → ℕ → Type 0
DepthFits none d = d ≡ 0
DepthFits (some _) d = 1 ≤ d

pub record Inv (type : ℤ) (n : ℕ) (s : System) : Type 0 where
  pub few : n < usize_max
  pub held : (i : ℕ) → holds (s.pc i) ≡ share s.lock i
  pub depth : DepthFits s.lock.owner s.lock.recursion_depth
  pub single : eqb_ℤ type mutex_recursive ≡ false → s.lock.recursion_depth ≤ 1
  pub counted : s.lock.waiter_count ≡ total waiting n s.pc
  pub no_cond : s.lock.cond_waiter_count ≡ 0
  pub not_lost : s.lock.owner ≡ none → 0 < total asleep n s.pc → 0 < total due n s.pc

-- What a step of thread `i` from `p` to `p'` has to do to the lock.
record Change (type : ℤ) (i : Thread) (l : LockState) (p : Pc) (l' : LockState) (p' : Pc)
    : Type 0 where
  own : holds p' ≡ share l' i
  others : (j : Thread) → (i == j) ≡ false → share l' j ≡ share l j
  depth : DepthFits l'.owner l'.recursion_depth
  single : eqb_ℤ type mutex_recursive ≡ false → l'.recursion_depth ≤ 1
  counts : l'.waiter_count + waiting p ≡ l.waiter_count + waiting p'
  cond : l'.cond_waiter_count ≡ l.cond_waiter_count
  wakes :
      l'.owner ≡ none
      → (0 < due p') ⊎ ((l.owner ≡ none) × (asleep p' ≤ asleep p) × (due p ≤ due p'))

module _ {type : ℤ} {n : ℕ} {s : System} (inv : Inv type n s) (i : Thread) (lt : i < n) where
  Inv-move :
      (l' : LockState) (p' : Pc)
      → Change type i s.lock (s.pc i) l' p'
      → Inv type n (move s i (l', p'))
  Inv-move l' p' c = record {
    few = inv.few;
    held = λ j. ground (arith, c.own, inv.held j, c.others j);
    depth = c.depth;
    single = c.single;
    counted = ground (arith, inv.counted, c.counts, total-update waiting n s.pc i p' lt);
    no_cond = c.cond ∙ inv.no_cond;
    not_lost = λ e h. elim (c.wakes e) [
      | inl d ↦ ground (arith, d, total-update due n s.pc i p' lt, le-total due n s.pc i lt)
      | inr (o, a, b) ↦ omega (
        arith,
        a,
        b,
        total-update due n s.pc i p' lt,
        total-update asleep n s.pc i p' lt,
        λ (x : 0 < total asleep n s.pc). inv.not_lost o x,
      )
    ];
  }

  -- The counter does not saturate: there are fewer threads than its maximum.
  waiter_count-lt : s.lock.waiter_count < usize_max
  waiter_count-lt = omega (arith, inv.counted, inv.few, total-le waiting (λ p. ground arith) n s.pc)

  round-Change :
      (try_only : Bool) (h : ℕ) (l : LockState) (p : Pc)
      → holds p ≡ h
      → h + 1 < usize_max
      → s.pc i ≡ p
      → l.waiter_count + waiting p ≡ s.lock.waiter_count
      → l.owner ≡ s.lock.owner
      → l.recursion_depth ≡ s.lock.recursion_depth
      → l.cond_waiter_count ≡ s.lock.cond_waiter_count
      → l.waiter_count < usize_max
      → Change type i s.lock p
          (after_round h (lock_round type try_only i l)).0
          (after_round h (lock_round type try_only i l)).1
  unfolding lock_round
  round-Change try_only h l p hp hb hi hw ho hd hc hs = record {
    own = ground (arith, inv.held i, inv.depth);
    others = λ j ne. ground (arith, inv.held i, inv.held j, inv.depth);
    depth = ground (arith, inv.depth);
    single = ground (arith, inv.depth, inv.single);
    counts = ground arith;
    cond = ground arith;
    wakes = ground arith;
  }

  unlock-Change :
      (h : ℕ)
      → s.pc i ≡ outside h
      → Change type i s.lock
          (outside h)
          (after_unlock h (mutex_unlock_internal type false i s.lock)).0
          (after_unlock h (mutex_unlock_internal type false i s.lock)).1
  unfolding mutex_unlock_internal
  unlock-Change h hi = record {
    own = ground (arith, inv.held i, inv.depth, inv.single);
    others = λ j ne. ground (arith, inv.held i, inv.held j, inv.depth);
    depth = ground (arith, inv.depth);
    single = ground (arith, inv.depth, inv.single);
    counts = ground arith;
    cond = ground arith;
    wakes = ground (arith, inv.depth);
  }

  spurious-Change :
      (h : ℕ) → s.pc i ≡ sleeping h → Change type i s.lock (sleeping h) s.lock (woken h)
  spurious-Change h hi = record {
    own = ground (arith, inv.held i);
    others = λ j ne. refl;
    depth = inv.depth;
    single = inv.single;
    counts = refl;
    cond = refl;
    wakes = λ e. inl (omega arith);
  }

-- The two ways in which `notify_one` ends.
Inv-notify :
    {type : ℤ} {n : ℕ} {s : System} (i h j k : ℕ)
    → Inv type n s
    → i < n
    → j < n
    → s.pc i ≡ notifying h
    → s.pc j ≡ sleeping k
    → Inv type n (record { lock = s.lock; pc = update (update s.pc i (outside h)) j (woken k) })
Inv-notify {n} {s} i h j k inv li lj hi hj = record {
  few = inv.few;
  held = λ a. ground (arith, inv.held i, inv.held j, inv.held a);
  depth = inv.depth;
  single = inv.single;
  counted = ground (
    arith,
    inv.counted,
    total-update waiting n s.pc i (outside h) li,
    total-update waiting n (update s.pc i (outside h)) j (woken k) lj,
  );
  no_cond = inv.no_cond;
  not_lost =
      λ e x. ground (arith, le-total due n (update (update s.pc i (outside h)) j (woken k)) j lj);
}

Inv-notify_nobody :
    {type : ℤ} {n : ℕ} {s : System} (i h : ℕ)
    → Inv type n s
    → i < n
    → s.pc i ≡ notifying h
    → ((j k : ℕ) → j < n → s.pc j ≢ sleeping k)
    → Inv type n (move s i (s.lock, outside h))
Inv-notify_nobody {n} {s} i h inv li hi nobody = record {
  few = inv.few;
  held = λ a. ground (arith, inv.held i, inv.held a);
  depth = inv.depth;
  single = inv.single;
  counted = ground (arith, inv.counted, total-update waiting n s.pc i (outside h) li);
  no_cond = inv.no_cond;
  not_lost = λ e x. absurd (none_asleep x);
}
  where
    is_sleeping : (p : Pc) → 0 < asleep p → (k : ℕ) × (p ≡ sleeping k)
    is_sleeping (sleeping k) x = (k, refl)
    is_sleeping (outside _) x = absurd (omega arith)
    is_sleeping (woken _) x = absurd (omega arith)
    is_sleeping (notifying _) x = absurd (omega arith)

    none_asleep : 0 < total asleep n (update s.pc i (outside h)) → ⊥
    none_asleep x =
        let (j, lj, aj) =
          total_pos asleep n s.pc
            (omega (arith, total-update asleep n s.pc i (outside h) li, ap asleep hi)) in
        let (k, e) = is_sleeping (s.pc j) aj in nobody j k lj e

pub Inv-Step : {type : ℤ} {n : ℕ} {s t : System} → Inv type n s → Step type n s t → Inv type n t
unfolding wake
Inv-Step {s} inv (call_lock i h try_only lt hi hb) = Inv-move inv i lt _ _ (
    rw hi (
      round-Change inv i lt try_only h s.lock (outside h) refl hb hi (omega arith) refl refl refl
        (waiter_count-lt inv i lt)))
Inv-Step {n} {s} inv (resume i h lt hi hb) = Inv-move inv i lt _ _ (
    rw hi (
      round-Change inv i lt false h (wake s.lock) (woken h) refl hb hi counts refl refl refl
        (omega (arith, waiter_count-lt inv i lt))))
  where
    counts : (wake s.lock).waiter_count + 1 ≡ s.lock.waiter_count
    counts = omega (arith, inv.counted, le-total waiting n s.pc i lt, ap waiting hi)
Inv-Step {s} inv (spurious i h lt hi) =
    Inv-move inv i lt _ _ (rw hi (spurious-Change inv i lt h hi))
Inv-Step {s} inv (call_unlock i h lt hi) =
    Inv-move inv i lt _ _ (rw hi (unlock-Change inv i lt h hi))
Inv-Step {s} inv (notify i h j k li lj hi hj) = Inv-notify i h j k inv li lj hi hj
Inv-Step {s} inv (notify_nobody i h li hi nobody) = Inv-notify_nobody i h inv li hi nobody

Inv-init : (type : ℤ) (n : ℕ) → n < usize_max → Inv type n init
Inv-init type n few = record {
  few = few;
  held = λ i. refl;
  depth = refl;
  single = λ e. omega arith;
  no_cond = refl;
  counted = sym (total_zero waiting n (λ _. outside 0) (λ i. refl));
  not_lost = λ e x. absurd (omega (arith, total_zero asleep n (λ _. outside 0) (λ i. refl)));
}

-- Every state that `n` threads can reach keeps the invariant.
pub Reach-Inv : {type : ℤ} {n : ℕ} {s : System} → n < usize_max → Reach type n s → Inv type n s
Reach-Inv few start = Inv-init _ _ few
Reach-Inv few (later r st) = Inv-Step (Reach-Inv few r) st
