-- ===== src/Taint/Flows.antt =====
-- What the tracker of src/taint.rs lets through.
use intermcp.Prelude.{
  ◌≡◌, ◌≢◌, ◌↔◌, ◌⊎◌, Text, true, arith, ◌==◌, ==_iff, text_is_eq, if◌then◌else◌, lookup-insert,
  Option, ap, ==_refl, codes, some,
}
use intermcp.Error.{ok}
use intermcp.Json.{Value, object, string, get_field, get}
use intermcp.Taint.{
  SensitivityLabel, confidential, untrusted, SinkCapability, privileged_execution, network_egress,
  TaintTracker, tag_item, get_label, check_flow, marker, is_marked, scan_json_arguments,
}

-- The two flows that the tracker blocks.
abbrev pub IsBlocked : SensitivityLabel → SinkCapability → Type 0
IsBlocked label sink =
    ((label ≡ untrusted) × (sink ≡ privileged_execution))
    ⊎ ((label ≡ confidential) × (sink ≡ network_egress))

flow_sound :
    (label : SensitivityLabel) (sink : SinkCapability) (t : TaintTracker)
    → check_flow label sink t ≡ (t, ok tt)
    → IsBlocked label sink
    → ⊥
unfolding check_flow
flow_sound label sink t h b = ground arith

flow_complete :
    (label : SensitivityLabel) (sink : SinkCapability) (t : TaintTracker)
    → ¬ IsBlocked label sink
    → check_flow label sink t ≡ (t, ok tt)
unfolding check_flow
flow_complete label sink t h = ground arith

-- A flow is let through exactly when it is neither of untrusted data into privileged execution nor
-- of confidential data into the network, and then it changes nothing.
pub check_flow-ok_iff :
    (label : SensitivityLabel) (sink : SinkCapability) (t : TaintTracker)
    → (check_flow label sink t ≡ (t, ok tt)) ↔ (¬ IsBlocked label sink)
unfolding check_flow
check_flow-ok_iff label sink t = (flow_sound label sink t, flow_complete label sink t)

-- A label that is tagged is the one that is read back, and the labels of other items are kept.
pub get_label-tag_item :
    (item other : Text) (label : SensitivityLabel) (t : TaintTracker)
    → get_label other (tag_item item label t) ≡ (if item == other then label else get_label other t)
unfolding get_label tag_item
get_label-tag_item item other label t = rw lookup-insert (ground arith)

marker_sound : (o : Option Value) → marker o ≡ true → o ≡ some (string (codes "untrusted"))
unfolding marker
marker_sound (some (string s)) h = ap (λ x. some (string x)) ((==_iff s _).0 h)
marker_sound o h = cc

marker_complete : (o : Option Value) → o ≡ some (string (codes "untrusted")) → marker o ≡ true
unfolding marker
marker_complete o h = rw h (==_refl (codes "untrusted"))

marked_sound :
    (args : Value)
    → is_marked args ≡ true
    → get (codes "_taint") args ≡ some (string (codes "untrusted"))
unfolding is_marked get
marked_sound (object fs) h = marker_sound (get_field (codes "_taint") fs) h
marked_sound args h = ground arith

marked_complete :
    (args : Value)
    → get (codes "_taint") args ≡ some (string (codes "untrusted"))
    → is_marked args ≡ true
unfolding is_marked get
marked_complete (object fs) h = marker_complete (get_field (codes "_taint") fs) h
marked_complete args h = ground arith

privileged_refused :
    (args : Value) (sink : SinkCapability) (t : TaintTracker)
    → (scan_json_arguments args sink t).1 ≢ ok tt
    → (sink ≡ privileged_execution) × (is_marked args ≡ true)
unfolding scan_json_arguments
privileged_refused args sink t h = ground arith

refused_privileged :
    (args : Value) (sink : SinkCapability) (t : TaintTracker)
    → sink ≡ privileged_execution
    → is_marked args ≡ true
    → (scan_json_arguments args sink t).1 ≢ ok tt
unfolding scan_json_arguments
refused_privileged args sink t p m = ground arith

-- Arguments are refused at a sink exactly when the sink is privileged execution and they are an
-- object whose field "_taint" is the text "untrusted".
pub scan-refused_iff :
    (args : Value) (sink : SinkCapability) (t : TaintTracker)
    → ((scan_json_arguments args sink t).1 ≢ ok tt) ↔ (
        (sink ≡ privileged_execution)
        × (get (codes "_taint") args ≡ some (string (codes "untrusted"))))
scan-refused_iff args sink t = (
  (λ h. let (p, m) = privileged_refused args sink t h in (p, marked_sound args m)),
  (λ h. refused_privileged args sink t h.0 (marked_complete args h.1)),
)
