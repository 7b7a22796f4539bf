-- ===== src/Tests/Rwlock.antt =====
-- src/pthread.rs: three threads on a read-write lock.
use rlibc.Common.{ℕ, ◌<◌, ◌≡◌, ◌⊎◌, refl, true, false, some, none, arith}
use rlibc.Common.Threads.{update}
use rlibc.Errno.{einval, ebusy}
use rlibc.Pthread.{usize_max}
use rlibc.Pthread.Rwlock.{
  RwState, rw_returns, idle, rdlock_round, wrlock_round, rwlock_unlock_internal,
  rwlock_mark_destroyed,
}
use rlibc.Pthread.Rwlock.System.{
  outside, sleeping, woken, notifying, RwSystem, RwReach, rw_start, rw_later, call_rdlock,
  call_wrlock, call_unlock, rw_init,
}
use rlibc.Pthread.Rwlock.Safety.{write_excludes, rw_no_lost_wakeup, rw_destroy_in_use}
use rlibc.Pthread.Rwlock.Calls.{
  no_locks, rw_done, rwlock_init, rwlock_destroy, rwlock_rdlock, rwlock_tryrdlock, rwlock_wrlock,
  rwlock_trywrlock, rwlock_unlock, rwlock_lifecycle,
}

three : 3 < usize_max
three = omega arith

-- Thread 0 has the write lock.
abbrev writing : RwSystem
writing = record {
  lock = record idle { writer_owner = some 0 };
  pc = update rw_init.pc 0 (record { reads = 0; writes = 1; place = outside });
}

writing_reached : RwReach 3 writing
unfolding wrlock_round
writing_reached = rw_later rw_start (call_wrlock 0 false (omega arith) refl)

-- Thread 0 has a read lock.
abbrev reading : RwSystem
reading = record {
  lock = record idle { reader_owners = update (λ _. none) 0 (some 1); total_readers = 1 };
  pc = update rw_init.pc 0 (record { reads = 1; writes = 0; place = outside });
}

reading_reached : RwReach 3 reading
unfolding rdlock_round
reading_reached = rw_later rw_start (call_rdlock 0 false (omega arith) refl)

-- Thread 1 waits to write.
abbrev queued : RwSystem
queued = record {
  lock = record reading.lock { waiting_writers = 1 };
  pc = update reading.pc 1 (record { reads = 0; writes = 0; place = sleeping true });
}

queued_reached : RwReach 3 queued
unfolding wrlock_round
queued_reached = rw_later reading_reached (call_wrlock 1 false (omega arith) refl)

-- Thread 0 gives its read lock back and is about to notify.
abbrev released : RwSystem
released = record {
  lock = record queued.lock {
    reader_owners = update reading.lock.reader_owners 0 none;
    total_readers = 0;
  };
  pc = update queued.pc 0 (record { reads = 0; writes = 0; place = notifying });
}

released_reached : RwReach 3 released
unfolding rwlock_unlock_internal
released_reached = rw_later queued_reached (call_unlock 0 (omega arith) refl)

write_excludes_example :
    ((writing.pc 0).writes ≡ 1)
    × ((writing.pc 1).reads ≡ 0)
    × ((◌≡◌ {A = ℕ} 0 1) ⊎ ((writing.pc 1).writes ≡ 0))
write_excludes_example = write_excludes three writing_reached 0 1 (omega arith) (omega arith)

rw_no_lost_wakeup_example :
    (i : ℕ) × (i < 3)
    × (((released.pc i).place ≡ woken true)
          × ((t : RwState) × (wrlock_round false true i released.lock ≡ rw_returns 0 t)
              × (t.writer_owner ≡ some i))
        ⊎ ((released.pc i).place ≡ notifying))
rw_no_lost_wakeup_example =
    rw_no_lost_wakeup three released_reached 1 true (refl, refl) (omega arith) refl

rw_destroy_in_use_example :
    rwlock_mark_destroyed queued.lock
    ≡ record { code = ebusy; state = queued.lock; notifies = false }
rw_destroy_in_use_example = rw_destroy_in_use three queued_reached 1 (omega arith) (omega arith)

rwlock_lifecycle_example :
    (rwlock_init (some 64) no_locks ≡ (0, update no_locks 64 (some idle)))
    × (rwlock_init (some 64) (update no_locks 64 (some idle))
        ≡ (ebusy, update no_locks 64 (some idle)))
    × ((rwlock_destroy (some 64) (update no_locks 64 (some idle))).0 ≡ 0)
    × ((j : ℕ) → (rwlock_destroy (some 64) (update no_locks 64 (some idle))).1 j ≡ none)
    × (rwlock_destroy (some 64) no_locks ≡ (einval, no_locks))
    × (rwlock_rdlock 4 (some 64) no_locks ≡ rw_done einval no_locks)
    × (rwlock_tryrdlock 4 (some 64) no_locks ≡ rw_done einval no_locks)
    × (rwlock_wrlock 4 (some 64) no_locks ≡ rw_done einval no_locks)
    × (rwlock_trywrlock 4 (some 64) no_locks ≡ rw_done einval no_locks)
    × (rwlock_unlock 4 (some 64) no_locks ≡ (einval, no_locks))
rwlock_lifecycle_example = rwlock_lifecycle 64 no_locks 4 refl
