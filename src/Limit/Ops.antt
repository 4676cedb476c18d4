-- ===== src/Limit/Ops.antt =====
-- The limiters of common/limit/limiter.go as what the users' table needs of them.
use ne_xt_server.Limit.Bucket.{
  RateApi, Limiter, Allows, new, set_limiter, new-Allows, set_limiter-Allows,
}
use ne_xt_server.Users.State.{LimiterOps}

abbrev pub limiter_ops : RateApi → LimiterOps
limiter_ops api = record {
  Limiter = Limiter api;
  Allows = Allows api;
  new = new api;
  set_limit = set_limiter api;
  new-Allows = new-Allows api;
  set_limit-Allows = set_limiter-Allows api;
}
