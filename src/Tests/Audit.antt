-- ===== src/Tests/Audit.antt =====
-- Rules and hits of a concrete auditor.
use Prim.Native.String.{String}
use ne_xt_server.Base.{◌≡◌, refl, false, some, [], ◌∷◌}
use ne_xt_server.Audit.Auditor.{Auditor, match_connection, enabled, collect, record_hit}
use ne_xt_server.Audit.Match.{first, applies, rules_of, match_connection-first}
use ne_xt_server.Tests.Data.{matching, auditor}
use ne_xt_server.Base.Int.{pos}

match_connection-first_example :
    match_connection matching "example.com" "" (1 ∷ []) auditor
    ≡ first (applies matching "example.com" "" (1 ∷ [])) (rules_of auditor)
match_connection-first_example = match_connection-first matching "example.com" "" (1 ∷ []) auditor

abbrev idle : Auditor String
idle = record auditor { rules = some [] }

is_idle : enabled idle ≡ false
unfolding enabled
is_idle = refl

abbrev since : Auditor String
since = record_hit (collect auditor).0 (pos 3) (pos 1)
