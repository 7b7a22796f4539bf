-- ===== src/Pthread/Rwlock/Invariant.antt =====
-- The invariant of the threads on a read-write lock of src/pthread.rs, and what a step of one
-- thread has to do to keep it.
use rlibc.Common.{
  ℕ, ◌+◌, ◌≤◌, ◌<◌, ◌≡◌, ◌⊎◌, inl, inr, refl, true, false, Option, none, some, ◌==◌, if◌then◌else◌,
  arith, ap,
}
use rlibc.Common.Threads.{total, total-update, total-le, le-total, total_pos}
use rlibc.Pthread.{Thread, usize_max, is_owner}
use rlibc.Pthread.Rwlock.{RwState}
use rlibc.Pthread.Rwlock.System.{
  Place, outside, sleeping, woken, notifying, RwPc, RwSystem, rw_move,
}

-- Asleep on the condition variable, and not yet told to wake up.
abbrev pub asleep_at : Place → ℕ
asleep_at (sleeping _) = 1
asleep_at _ = 0

-- A writer that is about to try again, or a thread that is about to notify.
abbrev pub due_at : Place → ℕ
due_at (woken true) = 1
due_at notifying = 1
due_at _ = 0

-- Counted in `waiting_readers`, and in `waiting_writers`.
abbrev pub reading_at : Place → ℕ
reading_at (sleeping false) = 1
reading_at (woken false) = 1
reading_at _ = 0

abbrev pub writing_at : Place → ℕ
writing_at (sleeping true) = 1
writing_at (woken true) = 1
writing_at _ = 0

abbrev pub asleep : RwPc → ℕ
asleep p = asleep_at p.place

abbrev pub due : RwPc → ℕ
due p = due_at p.place

abbrev pub reading : RwPc → ℕ
reading p = reading_at p.place

abbrev pub writing : RwPc → ℕ
writing p = writing_at p.place

abbrev pub held_reads : RwPc → ℕ
held_reads p = p.reads

abbrev pub entry : ℕ → Option ℕ
entry n = if n == 0 then none else some n

abbrev pub write_share : RwState → Thread → ℕ
write_share l i = if is_owner l.writer_owner i then 1 else 0

abbrev pub IsFree : RwState → Type 0
IsFree l = (l.writer_owner ≡ none) × (l.total_readers ≡ 0)

pub record RwInv (n : ℕ) (s : RwSystem) : Type 0 where
  pub few : n < usize_max
  pub alive : s.lock.destroyed ≡ false
  pub read : (i : ℕ) → s.lock.reader_owners i ≡ entry (s.pc i).reads
  pub written : (i : ℕ) → (s.pc i).writes ≡ write_share s.lock i
  pub readers : s.lock.total_readers ≡ total held_reads n s.pc
  pub apart : (s.lock.writer_owner ≡ none) ⊎ (s.lock.total_readers ≡ 0)
  pub queued_readers : s.lock.waiting_readers ≡ total reading n s.pc
  pub queued_writers : s.lock.waiting_writers ≡ total writing n s.pc
  pub not_lost : IsFree s.lock → 0 < total asleep n s.pc → 0 < total due n s.pc

-- What a step of thread `i` from `p` to `p'` has to do to the lock.
pub record RwChange (i : Thread) (l : RwState) (p : RwPc) (l' : RwState) (p' : RwPc) : Type 0 where
  pub lives : l'.destroyed ≡ false
  pub own_read : l'.reader_owners i ≡ entry p'.reads
  pub other_read : (j : Thread) → (i == j) ≡ false → l'.reader_owners j ≡ l.reader_owners j
  pub own_write : p'.writes ≡ write_share l' i
  pub other_write : (j : Thread) → (i == j) ≡ false → write_share l' j ≡ write_share l j
  pub reads_count : l'.total_readers + p.reads ≡ l.total_readers + p'.reads
  pub kept_apart : (l'.writer_owner ≡ none) ⊎ (l'.total_readers ≡ 0)
  pub readers_count : l'.waiting_readers + reading p ≡ l.waiting_readers + reading p'
  pub writers_count : l'.waiting_writers + writing p ≡ l.waiting_writers + writing p'
  -- A thread that leaves the lock free is about to notify, or the lock was free before and this
  -- thread either is no worse than it was or sleeps behind a waiting writer.
  pub wakes :
      IsFree l'
      → (0 < due p')
        ⊎ (IsFree l × (due p ≤ due p') × ((asleep p' ≤ asleep p) ⊎ (0 < l.waiting_writers)))

module _ {n : ℕ} {s : RwSystem} (inv : RwInv n s) (i : Thread) (lt : i < n) where
  -- A waiting writer is on its way, or asleep: then, the lock being free, someone is due.
  due_writer : IsFree s.lock → 0 < s.lock.waiting_writers → 0 < total due n s.pc
  due_writer free w =
      let (j, lj, x) = total_pos writing n s.pc (omega (arith, inv.queued_writers)) in
      by_place j lj (s.pc j).place refl x
    where
      by_place :
          (j : ℕ)
          → j < n
          → (w : Place) → (s.pc j).place ≡ w
          → 0 < writing_at (s.pc j).place
          → 0 < total due n s.pc
      by_place j lj (sleeping true) e x =
          inv.not_lost free (omega (arith, le-total asleep n s.pc j lj, ap asleep_at e))
      by_place j lj (woken true) e x = omega (arith, le-total due n s.pc j lj, ap due_at e)
      by_place j lj (sleeping false) e x = absurd (omega (arith, ap writing_at e))
      by_place j lj (woken false) e x = absurd (omega (arith, ap writing_at e))
      by_place j lj outside e x = absurd (omega (arith, ap writing_at e))
      by_place j lj notifying e x = absurd (omega (arith, ap writing_at e))

  pub RwInv-move :
      (l' : RwState) (p' : RwPc) → RwChange i s.lock (s.pc i) l' p' → RwInv n (rw_move s i (l', p'))
  RwInv-move l' p' c = record {
    few = inv.few;
    alive = c.lives;
    read = λ j. ground (arith, c.own_read, inv.read j, c.other_read j);
    written = λ j. ground (arith, c.own_write, inv.written j, c.other_write j);
    readers = omega (arith, inv.readers, c.reads_count, total-update held_reads n s.pc i p' lt);
    apart = c.kept_apart;
    queued_readers =
        omega (arith, inv.queued_readers, c.readers_count, total-update reading n s.pc i p' lt);
    queued_writers =
        omega (arith, inv.queued_writers, c.writers_count, total-update writing n s.pc i p' lt);
    not_lost = λ e h. elim (c.wakes e) [
      | inl d ↦ omega (arith, d, total-update due n s.pc i p' lt, le-total due n s.pc i lt)
      | inr (free, d, inl a) ↦ omega (
        arith,
        a,
        d,
        total-update due n s.pc i p' lt,
        total-update asleep n s.pc i p' lt,
        λ (x : 0 < total asleep n s.pc). inv.not_lost free x,
      )
      | inr (free, d, inr w) ↦ omega (arith, d, due_writer free w, total-update due n s.pc i p' lt)
    ];
  }

  pub waiting_readers-lt : s.lock.waiting_readers < usize_max
  waiting_readers-lt =
      omega (arith, inv.queued_readers, inv.few, total-le reading (λ p. ground arith) n s.pc)

  pub waiting_writers-lt : s.lock.waiting_writers < usize_max
  waiting_writers-lt =
      omega (arith, inv.queued_writers, inv.few, total-le writing (λ p. ground arith) n s.pc)
