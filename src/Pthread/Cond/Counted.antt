-- ===== src/Pthread/Cond/Counted.antt =====
-- src/pthread.rs: what the wait state of a condition variable counts, in every state that threads can
-- reach.
use rlibc.Common.{
  ℕ, zero, suc, ◌+◌, ◌<◌, ◌≤◌, ◌≡◌, refl, sym, ap, ◌∙◌, Bool, arith, ◌⊎◌, inl, inr, min,
}
use rlibc.Common.Threads.{
  update, total, total-update, le-total, total-le, total_zero, total_pos, total-same, total-add,
}
use rlibc.Pthread.{Thread, usize_max}
use rlibc.Pthread.Cond.{WaitState, signal_state, broadcast_state}
use rlibc.Pthread.Cond.Wait.{one_more, leave_wait, leave_timedwait}
use rlibc.Pthread.Cond.System.{
  Place, outside, sleeping, woken, signalling, broadcasting, CondSystem, init, move, notifies,
  begin, look, wake_all, CondStep, waits, spurious, looks, signals, broadcasts, notify_one,
  notify_nobody, notify_all, CondReach, start, later,
}

abbrev pub asleep : Place → ℕ
asleep sleeping = 1
asleep _ = 0

abbrev pub awake : Place → ℕ
awake woken = 1
awake _ = 0

abbrev pub in_wait : Place → ℕ
in_wait sleeping = 1
in_wait woken = 1
in_wait _ = 0

abbrev pub signalled : Place → ℕ
signalled signalling = 1
signalled _ = 0

abbrev pub broadcast : Place → ℕ
broadcast broadcasting = 1
broadcast _ = 0

total-in_wait :
    (n : ℕ) (f : Thread → Place) → total in_wait n f ≡ total asleep n f + total awake n f
total-in_wait = total-add in_wait asleep awake (λ p. ground arith)

pub in_wait_le : (p : Place) → in_wait p ≤ 1
in_wait_le p = ground arith

-- The wake-ups that a thread has been woken for, or is about to be.
abbrev pub served : ℕ → CondSystem → ℕ
served n s = total awake n s.place + total signalled n s.place

pub record IsCounted (n : ℕ) (s : CondSystem) : Type 0 where
  pub counted : s.wait_state.waiter_count ≡ total in_wait n s.place
  pub bounded : s.wait_state.pending_wakeups ≤ s.wait_state.waiter_count
  pub is_served : (s.wait_state.pending_wakeups ≤ served n s) ⊎ (0 < total broadcast n s.place)

-- What a step of thread `i` from `p` to `p'` has to do to the wait state.
record Change (w : WaitState) (p : Place) (w' : WaitState) (p' : Place) : Type 0 where
  counts : w'.waiter_count + in_wait p ≡ w.waiter_count + in_wait p'
  bounds : w'.pending_wakeups ≤ w'.waiter_count
  serves :
      (w'.pending_wakeups ≡ 0)
      ⊎ (0 < broadcast p')
      ⊎ ((broadcast p ≡ 0)
          × (w'.pending_wakeups + awake p + signalled p
              ≤ w.pending_wakeups + awake p' + signalled p'))

module _ {n : ℕ} {s : CondSystem} (few : n < usize_max) (c : IsCounted n s) (i : Thread)
    (lt : i < n) where
  few_waiting : s.wait_state.waiter_count < usize_max
  few_waiting = omega (arith, c.counted, few, total-le in_wait in_wait_le n s.place)

  IsCounted-move :
      (w' : WaitState) (p' : Place)
      → Change s.wait_state (s.place i) w' p'
      → IsCounted n (move s i (w', p'))
  IsCounted-move w' p' h =
      let a = total-update in_wait n s.place i p' lt in
      let b = total-update awake n s.place i p' lt in
      let d = total-update signalled n s.place i p' lt in
      let e = total-update broadcast n s.place i p' lt in
      let f = le-total broadcast n (update s.place i p') i lt in
      record {
        counted = omega (arith, c.counted, h.counts, a);
        bounded = h.bounds;
        is_served = elim h.serves [
          | inl z ↦ inl (omega (arith, z))
          | inr (inl z) ↦ inr (ground (arith, f, z))
          | inr (inr (z, k)) ↦ elim c.is_served [
            | inl v ↦ inl (omega (arith, v, k, b, d))
            | inr v ↦ inr (omega (arith, v, z, e))
          ]
        ];
      }

  begin-Change :
      s.place i ≡ outside
      → Change s.wait_state outside
          (begin (one_more s.wait_state)).0
          (begin (one_more s.wait_state)).1
  unfolding leave_wait
  begin-Change at = record {
    counts = ground (arith, few_waiting);
    bounds = ground (arith, few_waiting, c.bounded);
    serves = ground (arith, few_waiting);
  }

  look-Change :
      (timed_out : Bool)
      → s.place i ≡ woken
      → Change s.wait_state woken (look timed_out s.wait_state).0 (look timed_out s.wait_state).1
  unfolding leave_wait leave_timedwait
  look-Change timed_out at =
      let here = le-total in_wait n s.place i lt in
      record {
        counts = ground (arith, here, c.counted, ap in_wait at);
        bounds = ground (arith, here, c.counted, c.bounded, ap in_wait at);
        serves = ground (arith, here, c.counted, ap in_wait at);
      }

  signal-Change :
      s.place i ≡ outside
      → Change s.wait_state outside
          (notifies (signal_state s.wait_state)).0
          (notifies (signal_state s.wait_state)).1
  unfolding signal_state
  signal-Change at = record {
    counts = ground arith;
    bounds = ground (arith, c.bounded);
    serves = ground (arith, c.bounded, few_waiting);
  }

  broadcast-Change :
      s.place i ≡ outside
      → Change s.wait_state outside
          (notifies (broadcast_state s.wait_state)).0
          (notifies (broadcast_state s.wait_state)).1
  unfolding broadcast_state
  broadcast-Change at = record {
    counts = ground arith;
    bounds = ground (arith, c.bounded);
    serves = ground (arith, c.bounded);
  }

  spurious-Change : Change s.wait_state sleeping s.wait_state woken
  spurious-Change = record {
    counts = refl;
    bounds = c.bounded;
    serves = inr (inr (refl, omega arith));
  }

  notify_one-IsCounted :
      (j : Thread)
      → j < n
      → s.place i ≡ signalling
      → s.place j ≡ sleeping
      → IsCounted n (record s { place = update (update s.place i outside) j woken })
  notify_one-IsCounted j lj at here =
      let f = update s.place i outside in
      record {
        counted = ground (
          arith,
          c.counted,
          total-update in_wait n s.place i outside lt,
          total-update in_wait n f j woken lj,
        );
        bounded = c.bounded;
        is_served = elim c.is_served [
          | inl v ↦ inl (
              ground (
                arith,
                v,
                total-update awake n s.place i outside lt,
                total-update awake n f j woken lj,
                total-update signalled n s.place i outside lt,
                total-update signalled n f j woken lj,
              ))
          | inr v ↦ inr (
              ground (
                arith,
                v,
                total-update broadcast n s.place i outside lt,
                total-update broadcast n f j woken lj,
              ))
        ];
      }

  -- Where nobody sleeps, the wake-ups are for threads that are woken.
  nobody-IsCounted :
      (g : Thread → Place)
      → total in_wait n g ≡ total in_wait n s.place
      → total asleep n g ≡ 0
      → IsCounted n (record s { place = g })
  nobody-IsCounted g same none_asleep = record {
    counted = c.counted ∙ sym same;
    bounded = c.bounded;
    is_served = inl (omega (arith, c.bounded, c.counted, same, none_asleep, total-in_wait n g));
  }

pub IsCounted-CondStep :
    {n : ℕ} {s t : CondSystem} → n < usize_max → IsCounted n s → CondStep n s t → IsCounted n t
IsCounted-CondStep few c (waits i lt at) =
    IsCounted-move few c i lt _ _ (rw at (begin-Change few c i lt at))
IsCounted-CondStep few c (spurious i lt at) =
    IsCounted-move few c i lt _ _ (rw at (spurious-Change few c i lt))
IsCounted-CondStep few c (looks i timed_out lt at) =
    IsCounted-move few c i lt _ _ (rw at (look-Change few c i lt timed_out at))
IsCounted-CondStep few c (signals i lt at) =
    IsCounted-move few c i lt _ _ (rw at (signal-Change few c i lt at))
IsCounted-CondStep few c (broadcasts i lt at) =
    IsCounted-move few c i lt _ _ (rw at (broadcast-Change few c i lt at))
IsCounted-CondStep few c (notify_one i j lt lj at here) =
    notify_one-IsCounted few c i lt j lj at here
IsCounted-CondStep {n} {s} few c (notify_nobody i lt at none_there) =
    nobody-IsCounted few c i lt (update s.place i outside)
      (ground (arith, total-update in_wait n s.place i outside lt, ap in_wait at))
      (zero_lem _ none_asleep)
  where
    is_sleeping : (p : Place) → 0 < asleep p → p ≡ sleeping
    is_sleeping sleeping x = refl
    is_sleeping outside x = absurd (omega arith)
    is_sleeping woken x = absurd (omega arith)
    is_sleeping signalling x = absurd (omega arith)
    is_sleeping broadcasting x = absurd (omega arith)

    none_asleep : 0 < total asleep n (update s.place i outside) → ⊥
    none_asleep x =
        let (j, lj, a) =
          total_pos asleep n s.place
            (omega (arith, total-update asleep n s.place i outside lt, ap asleep at)) in
        none_there j lj (is_sleeping (s.place j) a)

    zero_lem : (k : ℕ) → (0 < k → ⊥) → k ≡ 0
    zero_lem zero h = refl
    zero_lem (suc k) h = absurd (h (omega arith))
IsCounted-CondStep {n} {s} few c (notify_all i lt at) =
    nobody-IsCounted few c i lt (wake_all (update s.place i outside))
      (total-same in_wait n (wake_all (update s.place i outside)) s.place (λ j. ground arith))
      (total_zero asleep n (wake_all (update s.place i outside)) (λ j. ground arith))

IsCounted-init : (n : ℕ) → IsCounted n init
IsCounted-init n = record {
  counted = sym (total_zero in_wait n (λ i. outside) (λ i. refl));
  bounded = omega arith;
  is_served = inl (omega arith);
}

-- Every state that fewer than 2^64 - 1 threads can reach is counted.
pub CondReach-IsCounted : (n : ℕ) {s : CondSystem} → n < usize_max → CondReach n s → IsCounted n s
CondReach-IsCounted n few start = IsCounted-init n
CondReach-IsCounted n few (later r t) = IsCounted-CondStep few (CondReach-IsCounted n few r) t

-- For fewer than 2^64 - 1 threads, in every state of a condition variable that they can reach:
-- the wake-ups left are no more than the threads in a wait, and no more than the threads that
-- have been woken and those about to call `notify_one`, unless a thread is about to call
-- `notify_all`. A signal then leaves one wake-up more, but no more than threads are in a wait,
-- and a broadcast as many as threads are in a wait.
pub wakeups_served :
    (n : ℕ) (s : CondSystem)
    → n < usize_max
    → CondReach n s
    → (s.wait_state.pending_wakeups ≤ total in_wait n s.place)
      × ((s.wait_state.pending_wakeups ≤ served n s)
          ⊎ ((i : Thread) × (i < n) × (s.place i ≡ broadcasting)))
      × ((signal_state s.wait_state).0.pending_wakeups
          ≡ min (s.wait_state.pending_wakeups + 1) (total in_wait n s.place))
      × ((broadcast_state s.wait_state).0.pending_wakeups ≡ total in_wait n s.place)
unfolding signal_state broadcast_state
wakeups_served n s few r =
    let c = CondReach-IsCounted n few r in
    let most = total-le in_wait in_wait_le n s.place in
    (
      omega (arith, c.counted, c.bounded),
      elim c.is_served [
        | inl v ↦ inl v
        | inr v ↦
            let (i, lt, b) = total_pos broadcast n s.place v in
            inr (i, lt, is_broadcasting (s.place i) b)
      ],
      ground (arith, c.counted, c.bounded, most),
      ground (arith, c.counted, c.bounded),
    )
  where
    is_broadcasting : (p : Place) → 0 < broadcast p → p ≡ broadcasting
    is_broadcasting broadcasting x = refl
    is_broadcasting sleeping x = absurd (omega arith)
    is_broadcasting outside x = absurd (omega arith)
    is_broadcasting woken x = absurd (omega arith)
    is_broadcasting signalling x = absurd (omega arith)
