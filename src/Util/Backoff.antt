-- ===== src/Util/Backoff.antt =====
-- util/util.go: `BackoffWaitFor`. Whether the predicate holds at each time is an argument; a time is a number of
-- nanoseconds, a duration the bit pattern of an int64, and only sleeping takes time.
use quilt.Prelude.{ℕ, zero, suc, ◌+◌, ◌*◌, ◌%◌, ◌^◌, Bool, Option, none, some, if◌then◌else◌, ltb}

abbrev pub second : ℕ
second = 1000000000

-- The answer, and when it is given.
pub data Waited : Type 0 where
  satisfied timed_out : ℕ → Waited

-- The loop, on fuel; `none` means that the fuel ran out.
unfoldable pub wait_loop : (ℕ → Bool) → ℕ → ℕ → ℕ → ℕ → Option Waited
wait_loop pred zero deadline now interval = none
wait_loop pred (suc fuel) deadline now interval =
    let rest = wait_loop pred fuel deadline (now + interval) (interval * 2 % 2 ^ 64) in
    if pred now
    then some (satisfied now)
    else if ltb deadline now
    then some (timed_out now)
    else rest

-- BackoffWaitFor at a time; `cap` is never read.
unfoldable pub backoff_wait_for : (ℕ → Bool) → ℕ → ℕ → ℕ → ℕ → Option Waited
unfolding wait_loop
backoff_wait_for pred fuel start cap timeout = wait_loop pred fuel (start + timeout) start second
