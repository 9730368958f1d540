-- ===== src/Http/Routes/Tests.antt =====
-- Requests and streams of src/http_server.rs.
use intermcp.Http.Streams.{check_and_record_sse_ip, new_sse_state, unify_newlines, message_event}
use intermcp.Prelude.{
  to_ascii_lowercase, text_eq, ℕ, ◌≡◌, ◌≤◌, ◌*◌, ◌^◌, refl, arith, Text, codes, false, none, some,
  Option, List, [], ◌∷◌, ◌++◌, ◌⊎◌, split, lookup, contains_char,
}
use intermcp.Vault.{new}
use intermcp.Error.{err}
use intermcp.Server.Messages.{Wire}
use intermcp.Server.Tests.{small_host, server, approved_call}
use intermcp.Http.Head.{Read, received}
use intermcp.Http.Guards.{HttpServerConfig, unauthorized, conflicting_content_length}
use intermcp.Http.Streams.Framing.{read_events, message_event-read}
use intermcp.Http.Streams.Limit.{Connection, AreWithin, accepted_of, accepted-le-3}
use intermcp.Http.Routes.{HttpState, Visit, Response, refusal, decided, health, handle_conn}
use intermcp.Http.Routes.Access.{Presents, IsPublic, token_or_nothing}

abbrev wire : Wire
wire = record {
  parse_items = λ t. err t;
  parse_value = λ t. err t;
  parse_request = λ v. err [];
  print_response = λ r. [];
  print_responses = λ rs. [];
}

abbrev config : HttpServerConfig
config = record {
  addr = codes "127.0.0.1:1";
  auth_token = some (codes "key");
  cors_origin = none;
  max_conns = none;
  tls_cert = none;
  tls_key = none;
}

abbrev visit : Visit
visit = record {
  ip = codes "10.0.0.1";
  sse_time = 0;
  session_id = codes "1";
  vault_time = 0;
  received_at = 0;
  answered_at = 0;
  around = approved_call;
  completed = λ items. [];
}

abbrev state : HttpState
state = record { server = server; session = []; sse = new_sse_state }

abbrev crlf : Text
crlf = 13 ∷ 10 ∷ []

abbrev request : Text → Text → List Read
request line header =
    received (line ++ crlf ++ codes "Host: h" ++ crlf) ∷ received (header ++ crlf ++ crlf) ∷ []

-- A request to approve a call, with another token.
abbrev wrong_token : List Read
wrong_token = request (codes "POST /approve/1 HTTP/1.1") (codes "Authorization: Bearer kex")

abbrev response : List Read → Option Response
response reads = (handle_conn small_host wire (λ bs. bs) config visit reads state).1

wrong_token_refused : response wrong_token ≡ some (refusal unauthorized)
unfolding handle_conn to_ascii_lowercase text_eq
wrong_token_refused = refl

health_is_public : response (request (codes "GET /health?x HTTP/1.0") []) ≡ some health
unfolding handle_conn to_ascii_lowercase text_eq
health_is_public = refl

approval :
    response (request (codes "POST /approve/1 HTTP/1.1") (codes "AUTHORIZATION: Bearer key"))
    ≡ some (decided false)
unfolding handle_conn to_ascii_lowercase text_eq new
approval = refl

lengths_conflict :
    response (
      request
        (codes "GET / HTTP/1.1")
        (codes "Content-Length: 1" ++ crlf ++ codes "content-length: +2"))
    ≡ some (refusal conflicting_content_length)
unfolding handle_conn to_ascii_lowercase
lengths_conflict = refl

token_or_nothing_example :
    Presents small_host wire (λ bs. bs) config (codes "key") wrong_token
    ⊎ (((handle_conn small_host wire (λ bs. bs) config visit wrong_token state).0 ≡ state)
        × IsPublic (handle_conn small_host wire (λ bs. bs) config visit wrong_token state).1)
token_or_nothing_example =
    token_or_nothing small_host wire (λ bs. bs) config visit wrong_token state (codes "key") refl

-- A payload that tries to end its event and to begin another one.
abbrev injection : Text
injection = codes "a" ++ 13 ∷ 10 ∷ 13 ∷ codes "event: endpoint"

message_event-read_example :
    (contains_char (message_event injection) 13 ≡ false)
    × (read_events [] [] (split 10 (message_event injection))
        ≡ record { kind = codes "message"; payload = unify_newlines injection } ∷ [])
message_event-read_example = message_event-read injection

abbrev home : Text
home = codes "10.0.0.1"

abbrev at : ℕ → Connection
at secs = (secs * 10 ^ 9, home)

abbrev later : List Connection
later = (5, home) ∷ (6, codes "10.0.0.2") ∷ (7, home) ∷ (8, home) ∷ []

later-AreWithin : AreWithin 0 later
later-AreWithin = (omega arith, (omega arith, (omega arith, (omega arith, tt))))

accepted-le-3_example : accepted_of home ((0, home) ∷ later) new_sse_state ≤ 3
unfolding lookup new_sse_state
accepted-le-3_example = accepted-le-3 home 0 later new_sse_state refl later-AreWithin (omega arith)

-- The count begins again when its minute is over: six streams, five of them within five seconds.
count_begins_again :
    accepted_of home (at 0 ∷ at 58 ∷ at 59 ∷ at 61 ∷ at 62 ∷ at 63 ∷ []) new_sse_state ≡ 6
unfolding accepted_of check_and_record_sse_ip new_sse_state text_eq
count_begins_again = refl
