-- ===== src/Pthread/Rwlock/Moves.antt =====
-- Every step of the threads on a read-write lock of src/pthread.rs keeps the invariant.
use rlibc.Common.{ℕ, ◌<◌, ◌≡◌, inl, refl, Bool, true, false, if◌then◌else◌, arith, sym, ◌∙◌}
use rlibc.Common.Threads.{update, le-total, total_zero, total-same}
use rlibc.Pthread.{Thread, usize_max}
use rlibc.Pthread.Rwlock.{rdlock_round, wrlock_round, rwlock_unlock_internal}
use rlibc.Pthread.Rwlock.System.{
  outside, sleeping, woken, notifying, RwPc, after_rdlock, after_wrlock, after_unlock, wake_all,
  RwSystem, at_place, RwStep, call_rdlock, resume_rdlock, call_wrlock, resume_wrlock, spurious,
  call_unlock, notify_all, rw_init, RwReach, rw_start, rw_later,
}
use rlibc.Pthread.Rwlock.Invariant.{
  asleep, reading, writing, held_reads, RwInv, RwChange, RwInv-move, waiting_readers-lt,
  waiting_writers-lt,
}

module _ {n : ℕ} {s : RwSystem} (inv : RwInv n s) (i : Thread) (lt : i < n) where
  rdlock-RwChange :
      (try_only registered : Bool)
      → (registered ≡ true → try_only ≡ false)
      → (s.pc i).place ≡ (if registered then woken false else outside)
      → RwChange i s.lock
          (s.pc i)
          (after_rdlock (s.pc i) (rdlock_round try_only registered i s.lock)).0
          (after_rdlock (s.pc i) (rdlock_round try_only registered i s.lock)).1
  unfolding rdlock_round
  rdlock-RwChange try_only registered blocks at = record {
    lives = ground (arith, inv.alive);
    own_read = ground (arith, inv.read i);
    other_read = λ j ne. ground arith;
    own_write = ground (arith, inv.written i);
    other_write = λ j ne. ground arith;
    reads_count = ground arith;
    kept_apart = ground (arith, inv.apart);
    readers_count =
        ground
          (arith, waiting_readers-lt inv i lt, inv.queued_readers, le-total reading n s.pc i lt);
    writers_count = ground arith;
    wakes = ground arith;
  }

  wrlock-RwChange :
      (try_only registered : Bool)
      → (registered ≡ true → try_only ≡ false)
      → (s.pc i).place ≡ (if registered then woken true else outside)
      → RwChange i s.lock
          (s.pc i)
          (after_wrlock (s.pc i) (wrlock_round try_only registered i s.lock)).0
          (after_wrlock (s.pc i) (wrlock_round try_only registered i s.lock)).1
  unfolding wrlock_round
  wrlock-RwChange try_only registered blocks at = record {
    lives = ground (arith, inv.alive);
    own_read = ground (arith, inv.read i);
    other_read = λ j ne. ground arith;
    own_write = ground (arith, inv.written i);
    other_write = λ j ne. ground (arith, inv.written j);
    reads_count = ground arith;
    kept_apart = ground (arith, inv.apart);
    readers_count = ground arith;
    writers_count =
        ground
          (arith, waiting_writers-lt inv i lt, inv.queued_writers, le-total writing n s.pc i lt);
    wakes = ground arith;
  }

  unlock-RwChange :
      (s.pc i).place ≡ outside
      → RwChange i s.lock
          (s.pc i)
          (after_unlock (s.pc i) (rwlock_unlock_internal i s.lock)).0
          (after_unlock (s.pc i) (rwlock_unlock_internal i s.lock)).1
  unfolding rwlock_unlock_internal
  unlock-RwChange at = record {
    lives = ground (arith, inv.alive);
    own_read = ground (arith, inv.read i, inv.written i);
    other_read = λ j ne. ground arith;
    own_write = ground (arith, inv.written i, inv.read i);
    other_write = λ j ne. ground (arith, inv.written j);
    reads_count =
        ground (arith, inv.written i, inv.read i, inv.readers, le-total held_reads n s.pc i lt);
    kept_apart = ground (arith, inv.apart);
    readers_count = ground (arith, inv.written i, inv.read i);
    writers_count = ground (arith, inv.written i, inv.read i);
    wakes = ground (arith, inv.written i, inv.read i);
  }

  spurious-RwChange :
      (w : Bool)
      → (s.pc i).place ≡ sleeping w
      → RwChange i s.lock (s.pc i) s.lock (at_place (s.pc i) (woken w))
  spurious-RwChange w at = record {
    lives = inv.alive;
    own_read = inv.read i;
    other_read = λ j ne. refl;
    own_write = inv.written i;
    other_write = λ j ne. refl;
    reads_count = refl;
    kept_apart = inv.apart;
    readers_count = ground arith;
    writers_count = ground arith;
    wakes = ground arith;
  }

  RwInv-notify_all :
      (s.pc i).place ≡ notifying
      → RwInv n
          (record { lock = s.lock; pc = wake_all (update s.pc i (at_place (s.pc i) outside)) })
  RwInv-notify_all at = record {
    few = inv.few;
    alive = inv.alive;
    read = λ j. ground (arith, inv.read j);
    written = λ j. ground (arith, inv.written j);
    readers = inv.readers ∙ total-same held_reads n s.pc g (λ j. ground arith);
    apart = inv.apart;
    queued_readers = inv.queued_readers ∙ total-same reading n s.pc g (λ j. ground arith);
    queued_writers = inv.queued_writers ∙ total-same writing n s.pc g (λ j. ground arith);
    not_lost = λ e h. absurd (omega (arith, total_zero asleep n g (λ j. ground arith)));
  }
    where
      g : ℕ → RwPc
      g = wake_all (update s.pc i (at_place (s.pc i) outside))

pub RwInv-RwStep : {n : ℕ} {s t : RwSystem} → RwInv n s → RwStep n s t → RwInv n t
RwInv-RwStep inv (call_rdlock i try_only lt at) =
    RwInv-move inv i lt _ _
      (rdlock-RwChange inv i lt try_only false (λ e. absurd (ground arith)) at)
RwInv-RwStep inv (resume_rdlock i lt at) =
    RwInv-move inv i lt _ _ (rdlock-RwChange inv i lt false true (λ e. refl) at)
RwInv-RwStep inv (call_wrlock i try_only lt at) =
    RwInv-move inv i lt _ _
      (wrlock-RwChange inv i lt try_only false (λ e. absurd (ground arith)) at)
RwInv-RwStep inv (resume_wrlock i lt at) =
    RwInv-move inv i lt _ _ (wrlock-RwChange inv i lt false true (λ e. refl) at)
RwInv-RwStep inv (spurious i w lt at) = RwInv-move inv i lt _ _ (spurious-RwChange inv i lt w at)
RwInv-RwStep inv (call_unlock i lt at) = RwInv-move inv i lt _ _ (unlock-RwChange inv i lt at)
RwInv-RwStep inv (notify_all i lt at) = RwInv-notify_all inv i lt at

RwInv-init : (n : ℕ) → n < usize_max → RwInv n rw_init
RwInv-init n few = record {
  few = few;
  alive = refl;
  read = λ i. refl;
  written = λ i. refl;
  readers = sym (total_zero held_reads n rw_init.pc (λ i. refl));
  apart = inl refl;
  queued_readers = sym (total_zero reading n rw_init.pc (λ i. refl));
  queued_writers = sym (total_zero writing n rw_init.pc (λ i. refl));
  not_lost = λ e x. absurd (omega (arith, total_zero asleep n rw_init.pc (λ i. refl)));
}

-- Every state that `n` threads can reach keeps the invariant.
pub RwReach-RwInv : {n : ℕ} {s : RwSystem} → n < usize_max → RwReach n s → RwInv n s
RwReach-RwInv few rw_start = RwInv-init _ few
RwReach-RwInv few (rw_later r st) = RwInv-RwStep (RwReach-RwInv few r) st
