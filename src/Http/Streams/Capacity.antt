-- ===== src/Http/Streams/Capacity.antt =====
-- src/http_server.rs: how many event streams are open at a time.
use intermcp.Prelude.{
  ℕ, ◌≤◌, ◌≡◌, refl, arith, Text, List, [], ◌∷◌, length, text_is_eq, length-insert, length-remove,
}
use intermcp.Http.Streams.{
  SseState, check_and_record_sse_ip, open_stream, close_stream, new_sse_state,
}

pub data StreamEvent : Type 0 where
  opens : (now : ℕ) → (ip sid : Text) → StreamEvent
  closes : (sid : Text) → StreamEvent

abbrev pub after : List StreamEvent → SseState → SseState
after [] s = s
after (opens now ip sid ∷ es) s = after es (open_stream now ip sid s).0
after (closes sid ∷ es) s = after es (close_stream sid s)

check-sessions :
    (now : ℕ) (ip : Text) (s : SseState)
    → (check_and_record_sse_ip now ip s).0.sessions ≡ s.sessions
unfolding check_and_record_sse_ip
check-sessions now ip s = refl

open_stream-within :
    (now : ℕ) (ip sid : Text) (s : SseState)
    → length s.sessions ≤ 1024
    → length (open_stream now ip sid s).0.sessions ≤ 1024
unfolding open_stream
open_stream-within now ip sid s h =
    ground (arith, check-sessions now ip s, length-insert sid [] s.sessions)

close_stream-within :
    (sid : Text) (s : SseState)
    → length s.sessions ≤ 1024
    → length (close_stream sid s).sessions ≤ 1024
unfolding close_stream
close_stream-within sid s h = omega (arith, length-remove sid s.sessions)

after-within :
    (es : List StreamEvent) (s : SseState)
    → length s.sessions ≤ 1024
    → length (after es s).sessions ≤ 1024
after-within [] s h = h
after-within (opens now ip sid ∷ es) s h = after-within es _ (open_stream-within now ip sid s h)
after-within (closes sid ∷ es) s h = after-within es _ (close_stream-within sid s h)

-- Whatever streams are opened and closed, at most 1024 are open at a time.
pub sessions-le-1024 : (es : List StreamEvent) → length (after es new_sse_state).sessions ≤ 1024
unfolding new_sse_state
sessions-le-1024 es = after-within es new_sse_state (omega arith)
