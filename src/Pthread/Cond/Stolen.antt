-- ===== src/Pthread/Cond/Stolen.antt =====
-- src/pthread.rs: a wake-up that another thread takes.
use rlibc.Common.{ℕ, ◌<◌, ◌≡◌, ap, false, arith}
use rlibc.Common.Threads.{update, le-total, total-le}
use rlibc.Pthread.{Thread, usize_max}
use rlibc.Pthread.Cond.{signal_state}
use rlibc.Pthread.Cond.Wait.{one_more, leave_wait}
use rlibc.Pthread.Cond.System.{
  outside, sleeping, woken, CondSystem, move, notifies, begin, look, CondStep, waits, looks,
  signals, notify_one, CondReach,
}
use rlibc.Pthread.Cond.Counted.{in_wait, in_wait_le, CondReach-IsCounted}

abbrev pub signalled_by : Thread → CondSystem → CondSystem
signalled_by k s = move s k (notifies (signal_state s.wait_state))

abbrev pub notified : Thread → Thread → CondSystem → CondSystem
notified k i s = record s { place = update (update s.place k outside) i woken }

abbrev pub begun_by : Thread → CondSystem → CondSystem
begun_by j s = move s j (begin (one_more s.wait_state))

abbrev pub looked : Thread → CondSystem → CondSystem
looked i s = move s i (look false s.wait_state)

-- For fewer than 2^64 - 1 threads, in every state of a condition variable that they can reach and
-- in which thread `i` sleeps, `j` and `k` are in no call and no wake-up is left: `k` can signal
-- and wake `i`, then `j` begins to wait and takes the wake-up, and `i` looks and sleeps again,
-- with no wake-up left.
pub signal_stolen :
    (n : ℕ) (s : CondSystem) (i j k : Thread)
    → n < usize_max
    → CondReach n s
    → i < n
    → j < n
    → k < n
    → s.place i ≡ sleeping
    → s.place j ≡ outside
    → s.place k ≡ outside
    → s.wait_state.pending_wakeups ≡ 0
    → (let a = signalled_by k s in
        let b = notified k i a in
        let c = begun_by j b in
        let t = looked i c in
        CondStep n s a
        × CondStep n a b
        × CondStep n b c
        × CondStep n c t
        × (t.place i ≡ sleeping)
        × (t.place j ≡ outside)
        × (t.wait_state.pending_wakeups ≡ 0))
unfolding signal_state leave_wait
signal_stolen n s i j k few r li lj lk pi pj pk z =
    let c = CondReach-IsCounted n few r in
    let here = le-total in_wait n s.place i li in
    let most = total-le in_wait in_wait_le n s.place in
    let p = ap in_wait pi in
    (
      signals k lk pk,
      notify_one k i lk li (ground (arith, c.counted, here, p)) (ground arith),
      waits j lj (ground (arith, c.counted, here, p)),
      looks i false li (ground (arith, c.counted, here, most, p)),
      ground (arith, c.counted, here, most, p),
      ground (arith, c.counted, here, most, p),
      ground (arith, c.counted, here, most, p),
    )
