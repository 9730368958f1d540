-- ===== src/Http/Streams.antt =====
-- src/http_server.rs: the event streams: `SseState` with its limit per address, the identifiers of
-- sessions, and the frame of a payload. An address is the text that names it.
pub mod Framing
pub mod Limit
pub mod Capacity
use intermcp.Prelude.{
  ℕ, ◌*◌, ◌-◌, ◌^◌, Text, codes, Bool, true, false, ◌&&◌, ◌||◌, Option, none, some, List, [], ◌∷◌,
  ◌++◌, text_is_eq, length, all, retain, len, ltb, leb, eqb, if◌then◌else◌, HashMap, lookup, insert,
  remove, add_u32, split,
}

-- A session keeps the payloads that are sent to it and not yet written to its socket.
pub record SseState : Type 0 where
  pub sessions : HashMap Text (List Text)
  pub ip_connections : HashMap Text (ℕ × ℕ)

unfoldable pub new_sse_state : SseState
new_sse_state = record { sessions = []; ip_connections = [] }

abbrev pub minute : ℕ
minute = 60 * 10 ^ 9

abbrev pub is_recent : ℕ → Text × (ℕ × ℕ) → Bool
is_recent now e = ltb (now - e.1.0) minute

-- The table without the expired entries, if it has grown.
pub evict : ℕ → HashMap Text (ℕ × ℕ) → HashMap Text (ℕ × ℕ)
evict now m = if ltb 500 (length m) then retain (is_recent now) m else m

-- `entry(ip).or_insert((now, 0))`
entry_or : ℕ → Option (ℕ × ℕ) → ℕ × ℕ
entry_or now none = (now, 0)
entry_or now (some e) = e

-- The new entry of an address, and whether its connection is accepted.
pub count_connection : ℕ → Option (ℕ × ℕ) → (ℕ × ℕ) × Bool
unfolding entry_or add_u32
count_connection now found =
    let e = entry_or now found in
    if ltb minute (now - e.0)
    then ((now, 1), true)
    else ((e.0, add_u32 e.1 1), leb (add_u32 e.1 1) 3)

unfoldable pub check_and_record_sse_ip : ℕ → Text → SseState → SseState × Bool
unfolding evict count_connection lookup insert
check_and_record_sse_ip now ip s =
    let m = evict now s.ip_connections in
    let (e, accepted) = count_connection now (lookup ip m) in
    (record s { ip_connections = insert ip e m }, accepted)

is_ascii_hexdigit : ℕ → Bool
is_ascii_hexdigit c =
    (leb b'0' c && leb c b'9') || (leb b'a' c && leb c b'f') || (leb b'A' c && leb c b'F')

unfoldable pub is_valid_session_id : Text → Bool
unfolding is_ascii_hexdigit len
is_valid_session_id sid = eqb (len sid) 32 && all is_ascii_hexdigit sid

pub data SseRefusal : Type 0 where
  too_many_sessions : SseRefusal
  too_many_for_ip : SseRefusal

-- A stream is opened under `sid`, or refused. `MAX_SSE_SESSIONS` is 1024.
unfoldable pub open_stream : (now : ℕ) → (ip sid : Text) → SseState → SseState × Option SseRefusal
unfolding check_and_record_sse_ip insert
open_stream now ip sid s =
    if leb 1024 (length s.sessions)
    then (s, some too_many_sessions)
    else (let (s', accepted) = check_and_record_sse_ip now ip s in
        if accepted
        then (record s' { sessions = insert sid [] s'.sessions }, none)
        else (s', some too_many_for_ip))

-- When the socket of a stream fails or its sender is gone.
pub close_stream : Text → SseState → SseState
unfolding remove
close_stream sid s = record s { sessions = remove sid s.sessions }

-- `payload.replace("\r\n", "\n").replace('\r', "\n")`
pub unify_newlines : Text → Text
unify_newlines [] = []
unify_newlines (c ∷ []) = (if eqb c 13 then 10 else c) ∷ []
unify_newlines (c ∷ (d ∷ s)) = elim (eqb c 13) [
  | true ↦ elim (eqb d 10) [ true ↦ 10 ∷ unify_newlines s | false ↦ 10 ∷ unify_newlines (d ∷ s) ]
  | false ↦ c ∷ unify_newlines (d ∷ s)
]

data_lines : List Text → Text
data_lines [] = []
data_lines (line ∷ lines) = codes "data: " ++ line ++ 10 ∷ data_lines lines

-- The event that is written for a payload.
pub message_event : Text → Text
unfolding unify_newlines split data_lines
message_event payload =
    codes "event: message" ++ 10 ∷ (data_lines (split 10 (unify_newlines payload)) ++ 10 ∷ [])
