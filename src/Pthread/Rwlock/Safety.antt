-- ===== src/Pthread/Rwlock/Safety.antt =====
-- What the read-write lock of src/pthread.rs promises to its threads, in every state that they can
-- reach.
use rlibc.Common.{
  ℕ, ◌+◌, ◌-◌, ◌<◌, ◌≡◌, ◌⊎◌, inl, inr, refl, Bool, true, false, none, some, if◌then◌else◌, arith,
  ap, ◌↔◌, Option-cases,
}
use rlibc.Common.Threads.{update, le-total, total_pos, total_zero, total-le}
use rlibc.Errno.{einval, ebusy}
use rlibc.Pthread.{Thread, usize_max}
use rlibc.Pthread.Rwlock.{
  RwState, rw_returns, rw_waits, or_zero, rdlock_round, wrlock_round, rwlock_unlock_internal,
  rwlock_mark_destroyed,
}
use rlibc.Pthread.Rwlock.System.{Place, outside, sleeping, woken, notifying, RwSystem, RwReach}
use rlibc.Pthread.Rwlock.Invariant.{
  asleep_at, due_at, asleep, due, reading, writing, held_reads, IsFree,
}
use rlibc.Pthread.Rwlock.Moves.{RwReach-RwInv}

module _ {n : ℕ} {s : RwSystem} (few : n < usize_max) (r : RwReach n s) where
  -- For fewer than 2^64 - 1 threads, in every state of a read-write lock that they can reach:
  -- while a thread holds the write lock, it holds it once, and no thread holds a read lock nor
  -- another the write lock.
  pub write_excludes :
      (i j : Thread)
      → j < n
      → 0 < (s.pc i).writes
      → ((s.pc i).writes ≡ 1) × ((s.pc j).reads ≡ 0) × ((i ≡ j) ⊎ ((s.pc j).writes ≡ 0))
  write_excludes i j lj w =
      let inv = RwReach-RwInv few r in
      (
        ground (arith, inv.written i),
        ground (arith, inv.written i, inv.apart, inv.readers, le-total held_reads n s.pc j lj),
        ground (arith, inv.written i, inv.written j),
      )

  is_due : (p : Place) → 0 < due_at p → (p ≡ woken true) ⊎ (p ≡ notifying)
  is_due (woken true) x = inl refl
  is_due notifying x = inr refl
  is_due (woken false) x = absurd (omega arith)
  is_due outside x = absurd (omega arith)
  is_due (sleeping _) x = absurd (omega arith)

  woken_takes :
      (i : Thread)
      → IsFree s.lock
      → (t : RwState) × (wrlock_round false true i s.lock ≡ rw_returns 0 t)
        × (t.writer_owner ≡ some i)
  unfolding wrlock_round
  woken_takes i free =
      let inv = RwReach-RwInv few r in
      (
        record s.lock { waiting_writers = s.lock.waiting_writers - 1; writer_owner = some i },
        ground (arith, inv.alive, free),
        refl,
      )

  -- For fewer than 2^64 - 1 threads, in every state of a read-write lock that they can reach:
  -- while no thread holds the lock and one sleeps, a waiting writer has been woken, whose call
  -- returns with the lock if it goes on now, or a thread is about to wake all.
  pub rw_no_lost_wakeup :
      (j : ℕ) (write : Bool)
      → IsFree s.lock
      → j < n
      → (s.pc j).place ≡ sleeping write
      → (i : ℕ) × (i < n)
        × (((s.pc i).place ≡ woken true)
              × ((t : RwState) × (wrlock_round false true i s.lock ≡ rw_returns 0 t)
                  × (t.writer_owner ≡ some i))
            ⊎ ((s.pc i).place ≡ notifying))
  rw_no_lost_wakeup j write free lj at =
      let inv = RwReach-RwInv few r in
      let (i, li, d) =
        total_pos due n s.pc
          (inv.not_lost free (omega (arith, le-total asleep n s.pc j lj, ap asleep_at at))) in
      let due_now = is_due (s.pc i).place d in
      (i, li, elim due_now [ inl e ↦ inl (e, woken_takes i free) | inr e ↦ inr e ])

  -- For fewer than 2^64 - 1 threads, in every state of a read-write lock that they can reach: an
  -- unlock by the thread with the write lock gives it back and wakes the others.
  pub unlock_write :
      (i : Thread)
      → 0 < (s.pc i).writes
      → rwlock_unlock_internal i s.lock
        ≡ record { code = 0; state = record s.lock { writer_owner = none }; notifies = true }
  unfolding rwlock_unlock_internal
  unlock_write i w = let inv = RwReach-RwInv few r in ground (arith, inv.written i, inv.alive)

  -- For fewer than 2^64 - 1 threads, in every state of a read-write lock that they can reach: an
  -- unlock by a thread with read locks gives one of them back, wakes the others when no read lock
  -- is left, and no subtraction passes zero.
  pub unlock_read :
      (i : Thread)
      → i < n
      → 0 < (s.pc i).reads
      → ((rwlock_unlock_internal i s.lock).code ≡ 0)
        × (or_zero ((rwlock_unlock_internal i s.lock).state.reader_owners i) + 1 ≡ (s.pc i).reads)
        × ((rwlock_unlock_internal i s.lock).state.total_readers + 1 ≡ s.lock.total_readers)
        × (((rwlock_unlock_internal i s.lock).notifies ≡ true)
            ↔ ((rwlock_unlock_internal i s.lock).state.total_readers ≡ 0))
  unfolding rwlock_unlock_internal
  unlock_read i lt h =
      let inv = RwReach-RwInv few r in
      (
        ground (
          arith,
          inv.written i,
          inv.read i,
          inv.alive,
          inv.apart,
          inv.readers,
          le-total held_reads n s.pc i lt,
        ),
        ground (
          arith,
          inv.written i,
          inv.read i,
          inv.alive,
          inv.apart,
          inv.readers,
          le-total held_reads n s.pc i lt,
        ),
        ground (
          arith,
          inv.written i,
          inv.read i,
          inv.alive,
          inv.apart,
          inv.readers,
          le-total held_reads n s.pc i lt,
        ),
        ground (
          arith,
          inv.written i,
          inv.read i,
          inv.alive,
          inv.apart,
          inv.readers,
          le-total held_reads n s.pc i lt,
        ),
      )

  -- For fewer than 2^64 - 1 threads, in every state of a read-write lock that they can reach: an
  -- unlock by a thread that holds nothing returns `EINVAL`, changes nothing and wakes nobody.
  pub rw_unlock_foreign :
      (i : Thread)
      → (s.pc i).reads ≡ 0
      → (s.pc i).writes ≡ 0
      → rwlock_unlock_internal i s.lock ≡ record { code = einval; state = s.lock; notifies = false }
  unfolding rwlock_unlock_internal
  rw_unlock_foreign i h k =
      let inv = RwReach-RwInv few r in ground (arith, inv.written i, inv.read i, inv.alive)

  -- For fewer than 2^64 - 1 threads, in every state of a read-write lock that they can reach:
  -- behind a waiting writer `j`, a thread that holds nothing does not get a read lock: it waits,
  -- or `pthread_rwlock_tryrdlock` returns `EBUSY`.
  pub writers_first :
      (i j : Thread) (try_only : Bool)
      → j < n
      → 0 < writing (s.pc j)
      → (s.pc i).reads ≡ 0
      → (s.pc i).writes ≡ 0
      → rdlock_round try_only false i s.lock ≡ (
          if try_only
          then rw_returns ebusy s.lock
          else rw_waits (record s.lock { waiting_readers = s.lock.waiting_readers + 1 }))
  unfolding rdlock_round
  writers_first i j try_only lj w h k =
      let inv = RwReach-RwInv few r in
      ground (
        arith,
        inv.written i,
        inv.read i,
        inv.alive,
        inv.queued_writers,
        le-total writing n s.pc j lj,
        inv.queued_readers,
        few,
        total-le reading (λ p. ground arith) n s.pc,
      )

  -- For fewer than 2^64 - 1 threads, in every state of a read-write lock that they can reach: a
  -- thread that holds read locks gets another at once, also behind waiting writers, if there are
  -- fewer than 2^64 - 1 read locks.
  pub reread :
      (i : Thread) (try_only : Bool)
      → i < n
      → 0 < (s.pc i).reads
      → s.lock.total_readers < usize_max
      → (l : RwState) × (rdlock_round try_only false i s.lock ≡ rw_returns 0 l)
        × (or_zero (l.reader_owners i) ≡ (s.pc i).reads + 1)
  unfolding rdlock_round
  reread i try_only lt h bound =
      let inv = RwReach-RwInv few r in
      let next = record s.lock {
        reader_owners = update s.lock.reader_owners i (some (or_zero (s.lock.reader_owners i) + 1));
        total_readers = s.lock.total_readers + 1;
      } in
      (
        next,
        ground
            (arith, inv.read i, inv.alive, inv.apart, inv.readers, le-total held_reads n s.pc i lt),
        ground (arith, inv.read i),
      )

  -- For fewer than 2^64 - 1 threads, in every state of a read-write lock that they can reach: a
  -- lock that a thread holds or waits for is not marked as destroyed: `EBUSY`, and nothing
  -- changes.
  pub rw_destroy_in_use :
      (i : Thread)
      → i < n
      → 0 < (s.pc i).reads + (s.pc i).writes + reading (s.pc i) + writing (s.pc i)
      → rwlock_mark_destroyed s.lock ≡ record { code = ebusy; state = s.lock; notifies = false }
  unfolding rwlock_mark_destroyed
  rw_destroy_in_use i lt used =
      let inv = RwReach-RwInv few r in
      ground (
        arith,
        inv.alive,
        inv.written i,
        inv.readers,
        le-total held_reads n s.pc i lt,
        inv.queued_readers,
        le-total reading n s.pc i lt,
        inv.queued_writers,
        le-total writing n s.pc i lt,
      )

  -- For fewer than 2^64 - 1 threads, in every state of a read-write lock that they can reach: a
  -- lock that no thread holds or waits for is marked as destroyed.
  pub rw_destroy_unused :
      ((i : Thread) → (s.pc i).reads + (s.pc i).writes + reading (s.pc i) + writing (s.pc i) ≡ 0)
      → rwlock_mark_destroyed s.lock
        ≡ record { code = 0; state = record s.lock { destroyed = true }; notifies = true }
  unfolding rwlock_mark_destroyed
  rw_destroy_unused unused =
      let inv = RwReach-RwInv few r in
      let no_reads = total_zero held_reads n s.pc (λ i. omega (arith, unused i)) in
      let no_readers = total_zero reading n s.pc (λ i. omega (arith, unused i)) in
      let no_writers = total_zero writing n s.pc (λ i. omega (arith, unused i)) in
      elim (Option-cases s.lock.writer_owner) [
        | inl free ↦ ground (arith, inv.alive, inv.readers, inv.queued_readers, inv.queued_writers)
        | inr (o, own) ↦ absurd (ground (arith, inv.written o, unused o))
      ]
