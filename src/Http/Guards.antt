-- ===== src/Http/Guards.antt =====
-- src/http_server.rs: the checks on the head of a request, in the order of `handle_conn`, and those
-- of the decisions on held calls.
use intermcp.Prelude.{
  ℕ, ◌*◌, Text, codes, Bool, true, false, not, ◌&&◌, Option, none, some, ◌||◌, eqb, retain, ◌==◌,
  text_is_eq, ltb, starts_with,
}
use intermcp.Error.{Result, refuse_if, ◌>>◌}
use intermcp.Http.Head.{Head, path}

pub record HttpServerConfig : Type 0 where
  pub addr : Text
  pub auth_token : Option Text
  pub cors_origin : Option Text
  pub max_conns : Option ℕ
  pub tls_cert : Option Text
  pub tls_key : Option Text

pub data Refusal : Type 0 where
  headers_too_large : Refusal
  conflicting_content_length : Refusal
  transfer_encoding : Refusal
  missing_host : Refusal
  unauthorized : Refusal
  payload_too_large : Refusal
  incomplete_payload : Refusal
  request_timeout : Refusal
  method_not_allowed : Refusal
  origin_forbidden : Refusal
  unsupported_media_type : Refusal

abbrev pub is_get : Head → Bool
is_get head = head.method == codes "GET"

abbrev pub is_post : Head → Bool
is_post head = head.method == codes "POST"

-- The bearer token of the request is the expected one.
unfoldable pub authorized : Option Text → Option Text → Bool
authorized none given = true
authorized (some expected) none = false
authorized (some expected) (some token) = token == expected

unfoldable pub is_public_get : Head → Bool
unfolding path
is_public_get head = is_get head && path head == codes "/health"

abbrev is_missing_host : Head → Bool
is_missing_host head = head.http_version == codes "HTTP/1.1" && not head.headers.has_host

-- `content_length.unwrap_or(0)`
unfoldable pub body_length : Option ℕ → ℕ
body_length none = 0
body_length (some len) = len

unfoldable pub check_head : HttpServerConfig → Head → Result (Unit {0}) Refusal
unfolding authorized is_public_get body_length
check_head config head =
    refuse_if head.headers.bad_content_length conflicting_content_length
    >> refuse_if head.headers.has_transfer_encoding_chunked transfer_encoding
    >> refuse_if (is_missing_host head) missing_host
    >> refuse_if
        (not (authorized config.auth_token head.headers.authorization) && not (is_public_get head))
        unauthorized
    >> refuse_if (ltb (10 * (1024 * 1024)) (body_length head.headers.content_length))
        payload_too_large

-- `cors_origin.map(|o| o.replace(['\r', '\n'], ""))`
clean_origin : Option Text → Option Text
clean_origin none = none
clean_origin (some o) = some (retain (λ c. not (eqb c 13 || eqb c 10)) o)

origin_differs : Option Text → Option Text → Bool
origin_differs none given = false
origin_differs (some expected) none = false
origin_differs (some expected) (some given) = not (given == expected)

is_json : (Text → Text) → Option Text → Bool
unfolding starts_with
is_json to_lowercase none = false
is_json to_lowercase (some ct) = starts_with (to_lowercase ct) (codes "application/json")

-- The checks before an approval or a rejection.
unfoldable pub check_decision : (Text → Text) → HttpServerConfig → Head → Result (Unit {0}) Refusal
unfolding authorized clean_origin origin_differs is_json body_length
check_decision to_lowercase config head =
    refuse_if (not (authorized config.auth_token head.headers.authorization)) unauthorized
    >> refuse_if (not (is_post head)) method_not_allowed
    >> refuse_if (origin_differs (clean_origin config.cors_origin) head.headers.origin)
        origin_forbidden
    >> refuse_if
        (ltb 0 (body_length head.headers.content_length)
          && not (is_json to_lowercase head.headers.content_type))
        unsupported_media_type
