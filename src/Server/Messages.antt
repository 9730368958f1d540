-- ===== src/Server/Messages.antt =====
-- src/server.rs: `handle_raw_message`: the reading of a message, batches, and the recording of the
-- session. The parsers and printers of JSON are parameters.
pub mod Order
use intermcp.Prelude.{
  ℕ, zero, suc, ◌*◌, Text, codes, Bool, true, false, not, Option, none, some, List, [], ◌∷◌, ◌++◌,
  ◌==◌, text_is_eq, is_empty, trim, starts_with, len, ltb, leb, length, map, if◌then◌else◌,
}
use intermcp.Error.{Result, ok, err}
use intermcp.Json.{Value, null, get}
use intermcp.Protocol.Ids.{JsonRpcRequest}
use intermcp.Protocol.Results.{invalid_request, parse_error, ErrorCode}
use intermcp.Recording.{FrameDirection, inbound, outbound, SessionFrame, frame_of}
use intermcp.Server.State.{
  Server, Host, Surroundings, JsonRpcResponse, failure, Failure, bad_jsonrpc, payload_too_large,
  empty_batch, batch_too_large, unreadable_request, unreadable_message,
}
use intermcp.Server.Gates.{text_at}
use intermcp.Server.Requests.{handle_request}

-- The parsers and printers of messages.
pub record Wire : Type 0 where
  pub parse_items : Text → Result (List Value) Text
  pub parse_value : Text → Result Value Text
  pub parse_request : Value → Result JsonRpcRequest Text
  pub print_response : JsonRpcResponse → Text
  pub print_responses : List JsonRpcResponse → Text

abbrev or_null : Option Value → Value
or_null none = null
or_null (some v) = v

abbrev rejected : Value → ErrorCode → Failure → JsonRpcResponse
rejected id code f = record { id = id; body = failure code f none }

abbrev is_two : Option Text → Bool
is_two none = false
is_two (some v) = v == codes "2.0"

-- An item of a batch, with its place in the batch.
pub record Task : Type 0 where
  pub index : ℕ
  pub around : Surroundings
  pub item : Value

-- `sort_by_key(|(idx, _)| *idx)`
pub insert_result {ℓ} : {A : Type ℓ} → ℕ × A → List (ℕ × A) → List (ℕ × A)
insert_result r [] = r ∷ []
insert_result r (q ∷ qs) =
    let rest = insert_result r qs in if ltb q.0 r.0 then q ∷ rest else r ∷ q ∷ qs

pub sort_by_index {ℓ} : {A : Type ℓ} → List (ℕ × A) → List (ℕ × A)
sort_by_index [] = []
sort_by_index (r ∷ rs) = insert_result r (sort_by_index rs)

-- `filter_map(|(_, resp)| resp)`
pub responses {ℓ} : {A : Type ℓ} → List (ℕ × Option A) → List A
responses [] = []
responses ((i, none) ∷ rs) = responses rs
responses ((i, some r) ∷ rs) = r ∷ responses rs

module _ (host : Host) (wire : Wire) where
  pub handle_parsed :
      Surroundings → Value → Result JsonRpcRequest Text → Server → Server × Option JsonRpcResponse
  handle_parsed around id (ok req) s = handle_request host around req s
  handle_parsed around id (err e) s = (s, some (rejected id invalid_request (unreadable_request e)))

  -- One message that is JSON, alone or in a batch.
  pub handle_item : Surroundings → Value → Server → Server × Option JsonRpcResponse
  handle_item around item s =
      let id = or_null (get (codes "id") item) in
      if not (is_two (text_at (codes "jsonrpc") item))
      then (s, some (rejected id invalid_request bad_jsonrpc))
      else handle_parsed around id (wire.parse_request item) s

  -- The items of a batch in the order in which they are completed.
  pub run_tasks : List Task → Server → Server × List (ℕ × Option JsonRpcResponse)
  run_tasks [] s = (s, [])
  run_tasks (t ∷ ts) s =
      let (s1, r) = handle_item t.around t.item s in
      let (s2, rs) = run_tasks ts s1 in (s2, (t.index, r) ∷ rs)

  print_batch : List JsonRpcResponse → Option Text
  print_batch [] = none
  print_batch (r ∷ rs) = some (wire.print_responses (r ∷ rs))

  pub batch_responses : List Task → Server → Server × List JsonRpcResponse
  batch_responses completed s =
      let (s', results) = run_tasks completed s in (s', responses (sort_by_index results))

  abbrev refused : ErrorCode → Failure → Server → Server × Option Text
  refused code f s = (s, some (wire.print_response (rejected null code f)))

  -- `completed` gives the items of a batch in the order of their completion.
  pub process_items : (List Value → List Task) → List Value → Server → Server × Option Text
  process_items completed items s =
      if is_empty items
      then refused invalid_request empty_batch s
      else if ltb 100 (length items)
      then refused invalid_request batch_too_large s
      else (let (s', rs) = batch_responses (completed items) s in (s', print_batch rs))

  print_one : Option JsonRpcResponse → Option Text
  print_one none = none
  print_one (some r) = some (wire.print_response r)

  process_batch :
      (List Value → List Task) → Result (List Value) Text → Server → Server × Option Text
  process_batch completed (ok items) s = process_items completed items s
  process_batch completed (err e) s = refused parse_error (unreadable_message e) s

  process_single : Surroundings → Result Value Text → Server → Server × Option Text
  process_single around (ok v) s = let (s', r) = handle_item around v s in (s', print_one r)
  process_single around (err e) s = refused parse_error (unreadable_message e) s

  pub process_raw_message :
      Surroundings → (List Value → List Task) → Text → Server → Server × Option Text
  process_raw_message around completed trimmed s =
      if ltb (10 * (1024 * 1024)) (len trimmed)
      then refused invalid_request payload_too_large s
      else if starts_with trimmed (codes "[")
      then process_batch completed (wire.parse_items trimmed) s
      else process_single around (wire.parse_value trimmed) s

  -- The frames that the recorder appends for a text, if it is JSON.
  recorded : ℕ → FrameDirection → Result Value Text → List SessionFrame
  recorded ts dir (ok v) = frame_of ts dir v ∷ []
  recorded ts dir (err e) = []

  recorded_answer : ℕ → Option Text → List SessionFrame
  recorded_answer ts none = []
  recorded_answer ts (some t) = recorded ts outbound (wire.parse_value t)

  -- With a recorder: the answer, and the frames of the session with those of this message.
  pub handle_raw_message :
      (ts ts' : ℕ)
      → Surroundings
      → (List Value → List Task)
      → Text
      → Server × List SessionFrame
      → (Server × List SessionFrame) × Option Text
  handle_raw_message ts ts' around completed raw (s, session) =
      let trimmed = trim raw in
      elim (is_empty trimmed) [
        | true ↦ ((s, session), none)
        | false ↦
            let (s', answer) = process_raw_message around completed trimmed s in
            (
              (
                s',
                session
                    ++ (recorded ts inbound (wire.parse_value trimmed)
                        ++ recorded_answer ts' answer),
              ),
              answer,
            )
      ]
