-- ===== src/Server/Execution/Traces.antt =====
-- src/server.rs: what a run of a tool leaves in the audit log and the book of receipts, by their
-- lines.
use intermcp.Prelude.{◌≡◌, refl, Text, false, Option, none, some, [], ◌∷◌, ◌++◌}
use intermcp.Json.{Value}
use intermcp.Cache.{ToolCache}
use intermcp.Receipts.{ReceiptBook, success}
use intermcp.Receipts.Book.Entry.{IsNoted, record_execution-IsNoted}
use intermcp.Smac.{SmacEntry, SmacLogger, log, entry}
use intermcp.Server.State.{Host, Surroundings, Tool}
use intermcp.Server.Execution.{logged, receipted, execution, stored}

module _ (host : Host) (around : Surroundings) (name : Text) (arguments : Value) where
  -- The file has one line more: an entry with the tool, the hashes of the arguments and of the value,
  -- and the hash before it.
  abbrev pub IsLogged : Value → Option SmacLogger → Option SmacLogger → Type 0
  IsLogged v none none = Unit
  IsLogged v none (some l) = ⊥
  IsLogged v (some l) none = ⊥
  IsLogged v (some l) (some l') =
      (e : SmacEntry) × (l'.lines ≡ l.lines ++ host.print_entry e ∷ [])
      × (e.tool ≡ name)
      × (e.req_hash ≡ host.hash_value arguments)
      × (e.resp_hash ≡ host.hash_value v)
      × (e.prev_hash ≡ l.last_hash)
      × (l'.last_hash ≡ e.hash)

  pub logged-IsLogged :
      (v : Value) (o : Option SmacLogger) → IsLogged v o (logged host around name arguments v o)
  unfolding logged log entry
  logged-IsLogged v none = tt
  logged-IsLogged v (some l) = (
    entry host.sha256_hex around.log_millis name (host.hash_value arguments) (host.hash_value v) l,
    refl,
    refl,
    refl,
    refl,
    refl,
    refl,
  )

  -- A success of the tool is noted, unless its receipt cannot be hashed.
  abbrev pub IsReceipted : Value → Option ReceiptBook → Option ReceiptBook → Type 0
  IsReceipted v none none = Unit
  IsReceipted v none (some b) = ⊥
  IsReceipted v (some b) none = ⊥
  IsReceipted v (some b) (some b') =
      IsNoted host.sha256 host.hex host.canonicalize_json host.receipt_value host.print_receipt name
        success arguments v b b'

  pub receipted-IsReceipted :
      (tool : Tool) (session : Text) (v : Value) (o : Option ReceiptBook)
      → IsReceipted v o (
          receipted host around name arguments
            (execution host around name arguments tool session success v)
            o)
  unfolding receipted execution
  receipted-IsReceipted tool session v none = tt
  receipted-IsReceipted tool session v (some b) =
      record_execution-IsNoted host.sha256 host.hex host.canonicalize_json host.receipt_value
        host.print_receipt (execution host around name arguments tool session success v) b

  pub stored-uncached :
      (tool : Tool) (v : Value) (o : Option ToolCache)
      → tool.is_cacheable ≡ false
      → stored host around name arguments tool v o ≡ o
  unfolding stored
  stored-uncached tool v none h = refl
  stored-uncached tool v (some c) h = rw h refl
