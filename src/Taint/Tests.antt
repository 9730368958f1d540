-- ===== src/Taint/Tests.antt =====
-- Runs and instances for src/taint.rs.
use intermcp.Prelude.{some, add_u64, ◌≡◌, ◌≢◌, ◌↔◌, refl, codes, text_is_eq}
use intermcp.Error.{ok, err}
use intermcp.Json.{Value, object, field, end, string, get}
use intermcp.Taint.{
  new, check_flow, scan_json_arguments, confidential, network_egress, privileged_execution,
  confidential_egress_blocked,
}
use intermcp.Taint.Flows.{scan-refused_iff}

-- The tracker counts the flow it blocks.
egress_blocked :
    check_flow confidential network_egress new
    ≡ (record new { violations = 1 }, err confidential_egress_blocked)
unfolding check_flow add_u64
egress_blocked = refl

abbrev tainted : Value
tainted = object (field (codes "_taint") (string (codes "untrusted")) end)

scan-refused_iff_example : ((scan_json_arguments tainted privileged_execution new).1 ≢ ok tt) ↔ (
    (privileged_execution ≡ privileged_execution)
    × (get (codes "_taint") tainted ≡ some (string (codes "untrusted"))))
scan-refused_iff_example = scan-refused_iff tainted privileged_execution new
