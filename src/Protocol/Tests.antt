-- ===== src/Protocol/Tests.antt =====
-- Runs of src/protocol.rs.
use intermcp.Prelude.{◌≡◌, refl, codes, some, to_string, text_eq, ◌^◌, ◌-◌, true}
use intermcp.Error.{ok}
use intermcp.Protocol.Ids.{negotiate_protocol_version, from_u64, RequestId, to_string_key}

supported : negotiate_protocol_version (some (codes "2024-11-05")) ≡ ok (codes "2024-11-05")
unfolding negotiate_protocol_version text_eq
supported = refl

large_id : from_u64 (2 ^ 64 - 1) ≡ RequestId.string (codes "18446744073709551615")
unfolding from_u64 to_string
large_id = refl

negative_key : to_string_key (RequestId.number true 7) ≡ codes "-7"
unfolding to_string_key to_string
negative_key = refl
