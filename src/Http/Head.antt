-- ===== src/Http/Head.antt =====
-- src/http_server.rs: the head of a request, from the bytes that are read to its header lines.
pub mod Authorization
use intermcp.Prelude.{
  ℕ, suc, ◌+◌, ◌*◌, ◌-◌, ◌^◌, Text, codes, Bool, true, false, ◌&&◌, Option, none, some, List, [],
  ◌∷◌, ◌++◌, text_is_eq, length, drop, ltb, leb, eqb, if◌then◌else◌, trim, starts_with, contains,
  split, split_whitespace,
}

-- What one read of the socket gives: some bytes, its end or an error, or nothing in time.
pub data Read : Type 0 where
  received : List ℕ → Read
  closed : Read
  elapsed : Read

-- `s.split("\r\n")`
pub split_lines : Text → List Text
split_lines [] = [] ∷ []
split_lines (c ∷ []) = (c ∷ []) ∷ []
split_lines (c ∷ (d ∷ s)) = elim (eqb c 13 && eqb d 10) [
  | true ↦ [] ∷ split_lines s
  | false ↦ elim (split_lines (d ∷ s)) [ [] ↦ (c ∷ []) ∷ [] | p ∷ ps ↦ (c ∷ p) ∷ ps ]
]

-- The first place of the bytes "\r\n\r\n".
pub head_position : List ℕ → Option ℕ
unfolding starts_with
head_position [] = none
head_position (c ∷ s) = elim (starts_with (c ∷ s) (13 ∷ 10 ∷ 13 ∷ 10 ∷ [])) [
  | true ↦ some 0
  | false ↦ elim (head_position s) [ none ↦ none | some i ↦ some (suc i) ]
]

pub data HeadRead : Type 0 where
  no_head : HeadRead
  head_too_large : HeadRead
  head_read : (buffer : List ℕ) → (header_end : ℕ) → List Read → HeadRead

-- The first loop of `handle_conn`.
unfoldable pub read_head : List ℕ → List Read → HeadRead
unfolding head_position
read_head buffer [] = no_head
read_head buffer (closed ∷ reads) = no_head
read_head buffer (elapsed ∷ reads) = no_head
read_head buffer (received [] ∷ reads) = no_head
read_head buffer (received (b ∷ bytes) ∷ reads) =
    let buffer' = buffer ++ b ∷ bytes in
    let more = read_head buffer' reads in
    if ltb (32 * 1024) (length buffer')
    then head_too_large
    else elim (head_position buffer') [ none ↦ more | some pos ↦ head_read buffer' (pos + 4) reads ]

-- The digits of `parse::<usize>`.
digits_value : ℕ → Text → Option ℕ
digits_value n [] = some n
digits_value n (c ∷ s) = elim (leb b'0' c && leb c b'9') [
  | true ↦ digits_value (10 * n + (c - b'0')) s
  | false ↦ none
]

below_64 : Option ℕ → Option ℕ
below_64 none = none
below_64 (some n) = if ltb n (2 ^ 64) then some n else none

unsigned : Text → Option ℕ
unfolding digits_value below_64
unsigned [] = none
unsigned (c ∷ s) = below_64 (digits_value 0 (c ∷ s))

-- `parse::<usize>`, on 64 bits: a plus sign may stand before the digits.
pub parse_usize : Text → Option ℕ
unfolding unsigned
parse_usize [] = none
parse_usize (c ∷ s) = if eqb c b'+' then unsigned s else unsigned (c ∷ s)

-- What the header lines say.
pub record Headers : Type 0 where
  pub has_host : Bool
  pub is_sse_accept : Bool
  pub authorization : Option Text
  pub content_type : Option Text
  pub origin : Option Text
  pub content_length : Option ℕ
  pub bad_content_length : Bool
  pub has_transfer_encoding_chunked : Bool

pub no_headers : Headers
no_headers = record {
  has_host = false;
  is_sse_accept = false;
  authorization = none;
  content_type = none;
  origin = none;
  content_length = none;
  bad_content_length = false;
  has_transfer_encoding_chunked = false;
}

pub set_content_length : Option ℕ → Headers → Headers
set_content_length none h = record h { bad_content_length = true }
set_content_length (some len) h = elim h.content_length [
  | none ↦ record h { content_length = some len }
  | some existing ↦ if eqb existing len then h else record h { bad_content_length = true }
]

module _ (to_lowercase : Text → Text) where
  -- One header line. The prefixes have no letter that another character is lowered to, so that they
  -- are as many bytes of the line as characters of the prefix.
  pub read_header : Text → Headers → Headers
  unfolding starts_with contains trim parse_usize set_content_length
  read_header line h =
      let lower = to_lowercase line in
      if starts_with lower (codes "host:")
      then record h { has_host = true }
      else if starts_with lower (codes "accept:") && contains lower (codes "text/event-stream")
      then record h { is_sse_accept = true }
      else if starts_with lower (codes "authorization: bearer ")
      then record h { authorization = some (trim (drop 22 line)) }
      else if starts_with lower (codes "transfer-encoding:") && contains lower (codes "chunked")
      then record h { has_transfer_encoding_chunked = true }
      else if starts_with lower (codes "content-type:")
      then record h { content_type = some (trim (drop 13 line)) }
      else if starts_with lower (codes "origin:")
      then record h { origin = some (trim (drop 7 line)) }
      else if starts_with lower (codes "content-length:")
      then set_content_length (parse_usize (trim (drop 15 line))) h
      else h

  pub read_headers : List Text → Headers → Headers
  unfolding read_header
  read_headers [] h = h
  read_headers (line ∷ lines) h = read_headers lines (read_header line h)

pub record Head : Type 0 where
  pub method : Text
  pub raw_path : Text
  pub http_version : Text
  pub headers : Headers

-- `raw_path.split('?').next().unwrap_or(raw_path)`
unfoldable pub first_piece : Text → List Text → Text
first_piece whole [] = whole
first_piece whole (p ∷ ps) = p

unfoldable pub path : Head → Text
unfolding split first_piece
path head = first_piece head.raw_path (split b'?' head.raw_path)

-- The request line needs three words.
pub request_line : List Text → Headers → Option Head
request_line (method ∷ (raw_path ∷ (http_version ∷ words))) h =
    some (record { method = method; raw_path = raw_path; http_version = http_version; headers = h })
request_line words h = none

pub parse_lines : (Text → Text) → List Text → Option Head
unfolding split_whitespace read_headers request_line no_headers
parse_lines to_lowercase [] = none
parse_lines to_lowercase (line ∷ lines) =
    request_line (split_whitespace line) (read_headers to_lowercase lines no_headers)

unfoldable pub parse_head : (Text → Text) → Text → Option Head
unfolding split_lines parse_lines
parse_head to_lowercase s = parse_lines to_lowercase (split_lines s)
