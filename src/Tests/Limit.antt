-- ===== src/Tests/Limit.antt =====
-- Limiters of a concrete rate.
use ne_xt_server.Base.{◌≡◌, some, arith}
use ne_xt_server.Limit.Wait.{wait, Waited, Grants, wait_total}
use ne_xt_server.Tests.Data.{steady_rate}

wait_total_example :
    (w : Waited steady_rate) × (wait steady_rate 10 (9, 4) 10 ≡ some w) × Grants steady_rate 10 4 w
wait_total_example = wait_total steady_rate (9, 4) 10 (omega arith)
