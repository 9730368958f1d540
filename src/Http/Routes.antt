-- ===== src/Http/Routes.antt =====
-- src/http_server.rs: one connection of `run_http_server`: the request is read, checked and routed.
-- A response is a constructor with what varies in it.
pub mod Access
mod Tests
use intermcp.Prelude.{
  ℕ, ◌-◌, Text, codes, Bool, true, false, ◌&&◌, ◌||◌, Option, none, some, List, [], ◌∷◌, ◌++◌, ◌==◌,
  text_is_eq, length, drop, ltb, if◌then◌else◌, starts_with, split, lookup, insert, take,
}
use intermcp.Error.{Result, ok, err}
use intermcp.Json.{Value}
use intermcp.Vault.{TimeLockedVault, PendingActionSummary, list_pending, approve, reject}
use intermcp.Recording.{SessionFrame}
use intermcp.Server.State.{Server, Host, Surroundings}
use intermcp.Server.Messages.{Wire, Task, handle_raw_message}
use intermcp.Http.Head.{
  Read, received, closed, elapsed, HeadRead, no_head, head_too_large, head_read, read_head, Head,
  path, first_piece, parse_head,
}
use intermcp.Http.Streams.{SseState, SseRefusal, is_valid_session_id, open_stream}
use intermcp.Http.Guards.{
  HttpServerConfig, Refusal, headers_too_large, incomplete_payload, request_timeout, unauthorized,
  is_get, is_post, authorized, body_length, check_head, check_decision,
}
use intermcp.Http.Paths.{raw_session_id, action_id}

-- What the tasks of the connections share.
pub record HttpState : Type 0 where
  pub server : Server
  pub session : List SessionFrame
  pub sse : SseState

-- What one request meets: its peer, the clocks, a fresh session identifier, and what a message
-- meets in the server.
pub record Visit : Type 0 where
  pub ip : Text
  pub sse_time : ℕ
  pub session_id : Text
  pub vault_time : ℕ
  pub received_at : ℕ
  pub answered_at : ℕ
  pub around : Surroundings
  pub completed : List Value → List Task

pub data Response : Type 0 where
  refusal : Refusal → Response
  preflight : Response
  dashboard : Response
  health : Response
  sse_refusal : SseRefusal → Response
  stream_opened : Text → Response
  accepted : Response
  session_not_found : Response
  answer : Text → Response
  no_content : Response
  null_result : Response
  -- The list of the held calls, or without a vault an object with an empty list.
  pending : Option (List PendingActionSummary) → Response
  decided : (success : Bool) → Response
  not_found : Response

pending_of : ℕ → Option TimeLockedVault → Option (List PendingActionSummary)
unfolding list_pending
pending_of now none = none
pending_of now (some v) = some (list_pending now v)

-- `server_ref.vault_lock().map(|v| v.approve(id)).unwrap_or(false)`, or `reject`.
decide :
    (TimeLockedVault → TimeLockedVault × Bool) → Option TimeLockedVault → Server → Server × Bool
decide act none s = (s, false)
decide act (some v) s = let (v', done) = act v in (record s { vault_lock = some v' }, done)

-- `tx.send(resp_json)` to the stream of a session.
send_to : Text → Option Text → List Text → SseState → SseState
unfolding insert
send_to sid none queue s = s
send_to sid (some payload) queue s = record s {
  sessions = insert sid (queue ++ payload ∷ []) s.sessions;
}

sse_response : Text → Option SseRefusal → Response
sse_response sid none = stream_opened sid
sse_response sid (some r) = sse_refusal r

answered : Option Text → Response
answered none = no_content
answered (some json) = answer json

mcp_answered : Option Text → Response
mcp_answered none = null_result
mcp_answered (some json) = answer json

module _ (host : Host) (wire : Wire) (utf8_lossy : List ℕ → Text) (config : HttpServerConfig) where
  -- `server_ref.handle_raw_message(&body_str)`
  pub deliver : Visit → Text → HttpState → HttpState × Option Text
  deliver v body st =
      let ((s, session), json) =
        handle_raw_message host wire v.received_at v.answered_at v.around v.completed body
          (st.server, st.session) in
      (record st { server = s; session = session }, json)

  deliver_to : Visit → Text → Text → Option (List Text) → HttpState → HttpState × Response
  unfolding deliver send_to
  deliver_to v sid body none st = (st, session_not_found)
  deliver_to v sid body (some queue) st =
      let (st', json) = deliver v body st in
      (record st' { sse = send_to sid json queue st'.sse }, accepted)

  -- A message for the stream of a session, or one that is answered at once.
  pub message : Visit → Text → Option Text → HttpState → HttpState × Response
  unfolding deliver deliver_to is_valid_session_id lookup answered
  message v body none st = let (st', json) = deliver v body st in (st', answered json)
  message v body (some sid) st =
      if is_valid_session_id sid
      then deliver_to v sid body (lookup sid st.sse.sessions) st
      else (st, session_not_found)

  pub mcp_message : Visit → Text → HttpState → HttpState × Response
  unfolding deliver mcp_answered
  mcp_message v body st = let (st', json) = deliver v body st in (st', mcp_answered json)

  pub open_sse : Visit → HttpState → HttpState × Response
  unfolding open_stream sse_response
  open_sse v st =
      let (sse, refused) = open_stream v.sse_time v.ip v.session_id st.sse in
      (record st { sse = sse }, sse_response v.session_id refused)

  pub list_actions : Visit → Head → HttpState → HttpState × Response
  unfolding authorized pending_of
  list_actions v head st =
      if authorized config.auth_token head.headers.authorization
      then (st, pending (pending_of v.vault_time st.server.vault_lock))
      else (st, refusal unauthorized)

  decision :
      Result (Unit {0}) Refusal
      → (TimeLockedVault → TimeLockedVault × Bool)
      → HttpState
      → HttpState × Response
  unfolding decide
  decision (err e) act st = (st, refusal e)
  decision (ok u) act st =
      let (s, done) = decide act st.server.vault_lock st.server in
      (record st { server = s }, decided done)

  -- An approval or a rejection of the call that the path names.
  pub decide_action :
      (Text → TimeLockedVault → TimeLockedVault × Bool) → Head → HttpState → HttpState × Response
  unfolding decision action_id path check_decision
  decide_action act head st =
      decision (check_decision host.to_lowercase config head) (act (action_id (path head))) st

  pub route : Visit → Head → Text → HttpState → HttpState × Response
  unfolding path starts_with open_sse message mcp_message list_actions decide_action approve reject
  route v head body st =
      let p = path head in
      if head.method == codes "OPTIONS"
      then (st, preflight)
      else if is_get head && p == codes "/"
      then (st, dashboard)
      else if is_get head && p == codes "/health"
      then (st, health)
      else if is_get head && p == codes "/sse" && head.headers.is_sse_accept
      then open_sse v st
      else if is_post head
          && (p == codes "/message" || starts_with head.raw_path (codes "/message?"))
      then message v body (raw_session_id head.raw_path) st
      else if is_post head && (p == codes "/mcp" || p == codes "/")
      then mcp_message v body st
      else if is_get head && p == codes "/api/pending"
      then list_actions v head st
      else if starts_with p (codes "/api/approve/") || starts_with p (codes "/approve/")
      then decide_action approve head st
      else if starts_with p (codes "/api/reject/") || starts_with p (codes "/reject/")
      then decide_action reject head st
      else (st, not_found)

  -- The second loop of `handle_conn`: the body is read until it is complete.
  pub read_body : ℕ → ℕ → List ℕ → List Read → Result (List ℕ) Refusal
  read_body header_end len buffer [] =
      if ltb (length buffer - header_end) len then err incomplete_payload else ok buffer
  read_body header_end len buffer (r ∷ reads) =
      if ltb (length buffer - header_end) len
      then elim r [
        | closed ↦ err incomplete_payload
        | elapsed ↦ err request_timeout
        | received bytes ↦ elim bytes [
          | [] ↦ err incomplete_payload
          | b ∷ bs ↦ read_body header_end len (buffer ++ b ∷ bs) reads
        ]
      ]
      else ok buffer

  with_body : Visit → Head → ℕ → Result (List ℕ) Refusal → HttpState → HttpState × Response
  unfolding route body_length
  with_body v head header_end (err e) st = (st, refusal e)
  with_body v head header_end (ok buffer) st =
      let body = take (body_length head.headers.content_length) (drop header_end buffer) in
      route v head (utf8_lossy body) st

  checked :
      Visit
      → Head
      → ℕ
      → List ℕ
      → List Read
      → Result (Unit {0}) Refusal
      → HttpState
      → HttpState × Response
  unfolding with_body read_body body_length
  checked v head header_end buffer reads (err e) st = (st, refusal e)
  checked v head header_end buffer reads (ok u) st =
      with_body v head header_end
        (read_body header_end (body_length head.headers.content_length) buffer reads) st

  -- A request whose head is read; one without a request line has no response.
  pub handle_head :
      Visit → Option Head → ℕ → List ℕ → List Read → HttpState → HttpState × Option Response
  unfolding checked check_head
  handle_head v none header_end buffer reads st = (st, none)
  handle_head v (some head) header_end buffer reads st =
      let (st', r) = checked v head header_end buffer reads (check_head config head) st in
      (st', some r)

  handle_read : Visit → HeadRead → HttpState → HttpState × Option Response
  unfolding handle_head parse_head
  handle_read v no_head st = (st, none)
  handle_read v head_too_large st = (st, some (refusal headers_too_large))
  handle_read v (head_read buffer header_end reads) st =
      handle_head v (parse_head host.to_lowercase (utf8_lossy (take header_end buffer))) header_end
        buffer reads st

  -- `handle_conn`
  pub handle_conn : Visit → List Read → HttpState → HttpState × Option Response
  unfolding handle_read read_head
  handle_conn v reads st = handle_read v (read_head [] reads) st
