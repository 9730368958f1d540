-- ===== src/Taint.antt =====
-- src/taint.rs: sensitivity labels, sinks, and the tracker that checks flows between them.
pub mod Flows
mod Tests
use intermcp.Prelude.{
  ℕ, Text, codes, Bool, true, false, Option, none, some, ◌==◌, text_is_eq, HashMap, [], lookup,
  insert, add_u64, if◌then◌else◌,
}
use intermcp.Error.{Result, ok, err}
use intermcp.Json.{Value, object, get_field, as_str, string}

pub data SensitivityLabel : Type 0 where
  public internal confidential untrusted : SensitivityLabel

unfoldable pub is_untrusted : SensitivityLabel → Bool
is_untrusted untrusted = true
is_untrusted _ = false

unfoldable pub is_confidential : SensitivityLabel → Bool
is_confidential confidential = true
is_confidential _ = false

pub data SinkCapability : Type 0 where
  read_only_inspection file_mutation privileged_execution network_egress : SinkCapability

pub data TaintViolation : Type 0 where
  untrusted_to_privileged_sink : SinkCapability → TaintViolation
  confidential_egress_blocked : TaintViolation

pub record TaintTracker : Type 0 where
  pub item_labels : HashMap Text SensitivityLabel
  pub violations : ℕ

abbrev pub new : TaintTracker
new = record { item_labels = []; violations = 0 }

unfoldable pub tag_item : Text → SensitivityLabel → TaintTracker → TaintTracker
tag_item item_id label t = record t { item_labels = insert item_id label t.item_labels }

abbrev unwrap_or_public : Option SensitivityLabel → SensitivityLabel
unwrap_or_public none = public
unwrap_or_public (some l) = l

unfoldable pub get_label : Text → TaintTracker → SensitivityLabel
get_label item_id t = unwrap_or_public (lookup item_id t.item_labels)

violation : TaintViolation → TaintTracker → TaintTracker × Result (Unit {0}) TaintViolation
violation v t = (record t { violations = add_u64 t.violations 1 }, err v)

unfoldable pub check_flow :
    SensitivityLabel
    → SinkCapability
    → TaintTracker
    → TaintTracker × Result (Unit {0}) TaintViolation
unfolding violation
check_flow untrusted privileged_execution t =
    violation (untrusted_to_privileged_sink privileged_execution) t
check_flow confidential network_egress t = violation confidential_egress_blocked t
check_flow _ _ t = (t, ok tt)

-- The marker `"_taint": "untrusted"` of an arguments object.
marker : Option Value → Bool
marker (some (string s)) = s == codes "untrusted"
marker _ = false

is_marked : Value → Bool
unfolding marker
is_marked (object fs) = marker (get_field (codes "_taint") fs)
is_marked _ = false

unfoldable pub scan_json_arguments :
    Value → SinkCapability → TaintTracker → TaintTracker × Result (Unit {0}) TaintViolation
unfolding is_marked check_flow
scan_json_arguments args sink t = if is_marked args then check_flow untrusted sink t else (t, ok tt)
