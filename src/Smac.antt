-- ===== src/Smac.antt =====
-- src/smac.rs: the hash chain of audit entries. The file is the list of its lines. SHA-256 in
-- hexadecimal, the canonical bytes of a value, and the printer and parser of an entry's line come
-- from libraries and are parameters.
pub mod Chain
pub mod Replay
pub mod Tests
use intermcp.Prelude.{
  ℕ, ◌+◌, Text, codes, Bool, Option, none, some, List, [], ◌∷◌, ◌++◌, ◌==◌, text_is_eq,
  if◌then◌else◌, add_u64, as_bytes, to_string, trim, is_empty, ◌%◌, ◌^◌, true, false,
}
use intermcp.Error.{
  Result, ok, err, Message, FastMcpError, chain_broken, tampered_entry, json_parse_error,
  integrity_check_failed, security_violation, other,
}
use intermcp.Json.{Value}

abbrev pub genesis_hash : Text
genesis_hash = codes "0000000000000000000000000000000000000000000000000000000000000000"

pub record SmacEntry : Type 0 where
  pub index : ℕ
  pub ts : ℕ
  pub tool : Text
  pub prev_hash : Text
  pub req_hash : Text
  pub resp_hash : Text
  pub hash : Text

-- The logger with the file it appends to.
pub record SmacLogger : Type 0 where
  pub lines : List Text
  pub last_hash : Text
  pub counter : ℕ

module _ (sha256 : List ℕ → Text) where
  unfoldable pub compute_entry_hash : Text → ℕ → Text → Text → Text → Text
  compute_entry_hash prev index tool req_hash resp_hash = sha256 (
      as_bytes prev
      ++ (as_bytes (to_string index) ++ as_bytes tool ++ as_bytes req_hash ++ as_bytes resp_hash))

  -- The entry that `record` writes; its request and response are given by their hashes.
  unfoldable pub entry : ℕ → Text → Text → Text → SmacLogger → SmacEntry
  unfolding compute_entry_hash
  entry ts tool req_hash resp_hash l = record {
    index = l.counter;
    ts = ts;
    tool = tool;
    prev_hash = l.last_hash;
    req_hash = req_hash;
    resp_hash = resp_hash;
    hash = compute_entry_hash l.last_hash l.counter tool req_hash resp_hash;
  }

  module _ (print : SmacEntry → Text) (hash_value : Value → Text) where
    -- `record`. The writer's buffer keeps what a failed write leaves, so that the line counts as
    -- written either way.
    unfoldable pub log : ℕ → Text → Value → Value → SmacLogger → SmacLogger
    unfolding entry
    log ts tool args result l =
        let e = entry ts tool (hash_value args) (hash_value result) l in
        record {
          lines = l.lines ++ print e ∷ [];
          last_hash = e.hash;
          counter = add_u64 l.counter 1;
        }

  module _ (parse : Text → Result SmacEntry Text) where
    -- The checks on one entry, then the rest of the file.
    pub check_entry :
        SmacEntry → ℕ → Text → (Text → Result (ℕ × Text) Message) → Result (ℕ × Text) Message
    check_entry e line prev_expected rest =
        let expected_hash = compute_entry_hash e.prev_hash e.index e.tool e.req_hash e.resp_hash in
        if e.prev_hash == prev_expected
        then (if e.hash == expected_hash
            then rest e.hash
            else err (tampered_entry e.index line expected_hash e.hash))
        else err (chain_broken e.index line prev_expected e.prev_hash)

    pub check_line :
        Result SmacEntry Text
        → ℕ
        → Text
        → (Text → Result (ℕ × Text) Message)
        → Result (ℕ × Text) Message
    check_line (ok e) line prev_expected rest = check_entry e line prev_expected rest
    check_line (err x) line prev_expected rest = err (json_parse_error line x)

    -- The loop over the lines; `line` counts them from one.
    pub verify_from : ℕ → ℕ → Text → List Text → Result (ℕ × Text) Message
    verify_from line verified_count prev_expected [] = ok (verified_count, prev_expected)
    verify_from line verified_count prev_expected (l ∷ ls) = elim (is_empty (trim l)) [
      | true ↦ verify_from (line + 1) verified_count prev_expected ls
      | false ↦
          check_line (parse (trim l)) line prev_expected
            (λ hash. verify_from (line + 1) (verified_count + 1) hash ls)
    ]

    unfoldable pub verify_smac_log_chain : List Text → Result (ℕ × Text) Message
    unfolding verify_from check_line check_entry compute_entry_hash
    verify_smac_log_chain ls = verify_from 1 0 genesis_hash ls

    resume : List Text → Result (ℕ × Text) Message → Result SmacLogger FastMcpError
    resume ls (ok (verified, final_hash)) =
        ok (record { lines = ls; last_hash = final_hash; counter = verified % 2 ^ 64 })
    resume ls (err e) = err (security_violation (integrity_check_failed e))

    -- `SmacLogger::new` on a file with these lines; a missing or empty file has none.
    unfoldable pub new : List Text → Result SmacLogger FastMcpError
    unfolding resume
    new [] = ok (record { lines = []; last_hash = genesis_hash; counter = 0 })
    new (l ∷ ls) = resume (l ∷ ls) (verify_smac_log_chain (l ∷ ls))
