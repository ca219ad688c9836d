-- ===== src/Util/Waits.antt =====
-- util/util.go: how long `BackoffWaitFor` waits.
use quilt.Prelude.{
  ℕ, zero, suc, ◌+◌, ◌*◌, ◌%◌, ◌^◌, ◌≤◌, ◌<◌, ◌≡◌, refl, Bool, Bool-cases, inl, inr, true, false,
  some, ltb, arith,
}
use quilt.Util.Backoff.{second, Waited, satisfied, timed_out, wait_loop, backoff_wait_for}

-- It is satisfied when the predicate holds, and has timed out when the predicate does not and the deadline is
-- over; it answers in the span.
abbrev pub IsAnswer : (ℕ → Bool) → ℕ → ℕ → Waited → Type 0
IsAnswer pred start timeout (satisfied t) =
    (pred t ≡ true) × (start ≤ t) × (t ≤ start + 2 * timeout + second)
IsAnswer pred start timeout (timed_out t) =
    (pred t ≡ false) × (start + timeout < t) × (t ≤ start + 2 * timeout + second)

ltb→lt : (a b : ℕ) → ltb a b ≡ true → a < b
ltb→lt a b h = ground arith

ltb→le : (a b : ℕ) → ltb a b ≡ false → b ≤ a
ltb→le a b h = ground arith

doubled :
    (start now interval timeout : ℕ)
    → timeout < 2 ^ 61
    → now + second ≡ start + interval
    → now ≤ start + timeout
    → interval * 2 % 2 ^ 64 ≡ interval * 2
doubled start now interval timeout small e h = omega arith

wait_loop-IsAnswer :
    (pred : ℕ → Bool) (fuel start now interval timeout : ℕ)
    → timeout < 2 ^ 61
    → start ≤ now
    → now + second ≡ start + interval
    → now ≤ start + 2 * timeout + second
    → 1 ≤ fuel
    → start + timeout + 2 ≤ fuel + now
    → (w : Waited) × (wait_loop pred fuel (start + timeout) now interval ≡ some w)
      × IsAnswer pred start timeout w
unfolding wait_loop
wait_loop-IsAnswer pred zero start now interval timeout small a e b f g = absurd (omega arith)
wait_loop-IsAnswer pred (suc fuel) start now interval timeout small a e b f g =
    elim (Bool-cases (pred now)) [
      | inl p ↦ (satisfied now, rw (p) refl, (p, a, b))
      | inr p ↦ elim (Bool-cases (ltb (start + timeout) now)) [
        | inl l ↦ (timed_out now, rw (p, l) refl, (p, ltb→lt _ _ l, b))
        | inr l ↦
            let h : now ≤ start + timeout = ltb→le (start + timeout) now l in
            rw (p, l, doubled start now interval timeout small e h)
              (wait_loop-IsAnswer pred fuel start (now + interval) (interval * 2) timeout small
                (omega arith) (omega arith) (omega arith) (omega arith) (omega arith))
      ]
    ]

-- With a timeout below 2 ^ 61 nanoseconds BackoffWaitFor returns, whatever the predicate does and whatever the
-- cap: at a time when the predicate holds, or else after the deadline at a time when it does not, and in both
-- cases at most twice the timeout and a second after the start.
pub backoff_wait_for-IsAnswer :
    (pred : ℕ → Bool) (start cap timeout : ℕ)
    → timeout < 2 ^ 61
    → (w : Waited) × (backoff_wait_for pred (timeout + 2) start cap timeout ≡ some w)
      × IsAnswer pred start timeout w
unfolding backoff_wait_for
backoff_wait_for-IsAnswer pred start cap timeout small =
    wait_loop-IsAnswer pred (timeout + 2) start start second timeout small (omega arith)
      (omega arith) (omega arith) (omega arith) (omega arith)
