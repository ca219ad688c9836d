-- ===== src/Util/Examples.antt =====
-- util/util.go: a wait for a predicate that holds from some time on.
use quilt.Prelude.{◌+◌, ◌*◌, ◌≡◌, some, leb, arith}
use quilt.Util.Backoff.{second, Waited, backoff_wait_for}
use quilt.Util.Waits.{IsAnswer, backoff_wait_for-IsAnswer}

backoff_wait_for-IsAnswer_example :
    (w : Waited) × (backoff_wait_for
        (λ t. leb 9000000000 t)
        (30000000000 + 2)
        0
        (10 * second)
        30000000000
      ≡ some w)
    × IsAnswer (λ t. leb 9000000000 t) 0 30000000000 w
backoff_wait_for-IsAnswer_example =
    backoff_wait_for-IsAnswer (λ t. leb 9000000000 t) 0 (10 * second) 30000000000 (omega arith)
