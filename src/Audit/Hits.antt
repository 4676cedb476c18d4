-- ===== src/Audit/Hits.antt =====
-- What a report takes of the waiting hits, and what a failed one brings back.
use ne_xt_server.Base.{◌≡◌, ◌↔◌, ◌⊎◌, some, List, [], ◌∷◌, map, arith}
use ne_xt_server.Adapter.{DetectLog, DetectLog_discrete}
use ne_xt_server.Base.Assoc.{lookup, insert, lookup-insert}
use ne_xt_server.Audit.Auditor.{Auditor, collect, restore}

-- The log is in the list.
abbrev pub IsListed : DetectLog → List DetectLog → Type 0
IsListed log [] = ⊥
IsListed log (x ∷ xs) = (x ≡ log) ⊎ IsListed log xs

keys-IsListed :
    (m : List (DetectLog × Unit {0})) (log : DetectLog)
    → IsListed log (map (λ e. e.0) m) ↔ (lookup DetectLog_discrete log m ≡ some tt)
unfolding lookup
keys-IsListed [] log = ground arith
keys-IsListed ((x, tt) ∷ m) log = ground (arith, keys-IsListed m log)

module _ {Regexp : Type 0} where
  -- The hit is waiting to be reported.
  abbrev pub IsWaiting : DetectLog → Auditor Regexp → Type 0
  IsWaiting log a = lookup DetectLog_discrete log a.hits ≡ some tt

  IsWaiting-insert :
      (log x : DetectLog) (a : Auditor Regexp)
      → IsWaiting log (record a { hits = insert DetectLog_discrete x tt a.hits })
        ↔ ((x ≡ log) ⊎ IsWaiting log a)
  IsWaiting-insert log x a = ground (arith, lookup-insert DetectLog_discrete x log tt a.hits)

  restore-IsWaiting :
      (logs : List DetectLog) (a : Auditor Regexp) (log : DetectLog)
      → IsWaiting log (restore a logs) ↔ (IsListed log logs ⊎ IsWaiting log a)
  unfolding restore
  restore-IsWaiting [] a log = ground arith
  restore-IsWaiting (x ∷ logs) a log = ground (
    arith,
    restore-IsWaiting logs (record a { hits = insert DetectLog_discrete x tt a.hits }) log,
    IsWaiting-insert log x a,
  )

  -- A report takes every waiting hit, and nothing else: after it no hit waits.
  pub collect-IsWaiting :
      (a : Auditor Regexp) (log : DetectLog)
      → (IsListed log (collect a).1 ↔ IsWaiting log a) × ¬ (IsWaiting log (collect a).0)
  unfolding collect lookup
  collect-IsWaiting a log = (keys-IsListed a.hits log, λ h. absurd (cc h))

  -- When a report fails, every hit that it took waits again, next to those that were recorded since;
  -- and no other does.
  pub restore-collect :
      (a b : Auditor Regexp) (log : DetectLog)
      → IsWaiting log (restore b (collect a).1) ↔ (IsWaiting log a ⊎ IsWaiting log b)
  restore-collect a b log =
      ground (arith, restore-IsWaiting (collect a).1 b log, collect-IsWaiting a log)
