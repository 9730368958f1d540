-- ===== src/Http/Head/Authorization.antt =====
-- src/http_server.rs: where the bearer token of a request comes from.
use intermcp.Prelude.{
  ℕ, ◌≡◌, refl, arith, Text, codes, Bool, true, false, Option, none, some, List, [], ◌∷◌, ◌⊎◌, inl,
  inr, drop, trim, starts_with, contains, ◌&&◌, split_whitespace, if◌then◌else◌,
}
use intermcp.Http.Head.{
  Headers, no_headers, set_content_length, read_header, read_headers, Head, request_line,
  parse_usize, parse_lines, parse_head, split_lines,
}

-- A line of a request that gives a bearer token.
abbrev pub GivesToken : (Text → Text) → Text → Text → Type 0
GivesToken to_lowercase token line =
    (starts_with (to_lowercase line) (codes "authorization: bearer ") ≡ true)
    × (trim (drop 22 line) ≡ token)

abbrev pub SomeLine : (Text → Type 0) → List Text → Type 0
SomeLine P [] = ⊥
SomeLine P (line ∷ lines) = P line ⊎ SomeLine P lines

set_content_length-authorization :
    (o : Option ℕ) (h : Headers) → (set_content_length o h).authorization ≡ h.authorization
unfolding set_content_length
set_content_length-authorization none h = refl
set_content_length-authorization (some len) h = ground arith

-- A chain of tests that only its third step lets write the token.
chosen :
    (t1 t2 t3 t4 t5 t6 t7 : Bool) (new ct org token : Text) (o : Option ℕ) (h : Headers)
    → (if t1
        then record h { has_host = true }
        else if t2
        then record h { is_sse_accept = true }
        else if t3
        then record h { authorization = some new }
        else if t4
        then record h { has_transfer_encoding_chunked = true }
        else if t5
        then record h { content_type = some ct }
        else if t6
        then record h { origin = some org }
        else if t7
        then set_content_length o h
        else h).authorization
      ≡ some token
    → ((t3 ≡ true) × (new ≡ token)) ⊎ (h.authorization ≡ some token)
chosen true t2 t3 t4 t5 t6 t7 new ct org token o h e = inr e
chosen false true t3 t4 t5 t6 t7 new ct org token o h e = inr e
chosen false false true t4 t5 t6 t7 new ct org token o h e = inl (refl, cc)
chosen false false false true t5 t6 t7 new ct org token o h e = inr e
chosen false false false false true t6 t7 new ct org token o h e = inr e
chosen false false false false false true t7 new ct org token o h e = inr e
chosen false false false false false false true new ct org token o h e =
    inr (rw set_content_length-authorization at e)
chosen false false false false false false false new ct org token o h e = inr e

module _ (to_lowercase : Text → Text) where
  read_header-authorization :
      (line token : Text) (h : Headers)
      → (read_header to_lowercase line h).authorization ≡ some token
      → GivesToken to_lowercase token line ⊎ (h.authorization ≡ some token)
  unfolding read_header
  read_header-authorization line token h e =
      let lower = to_lowercase line in
      chosen (starts_with lower (codes "host:"))
        (starts_with lower (codes "accept:") && contains lower (codes "text/event-stream"))
        (starts_with lower (codes "authorization: bearer "))
        (starts_with lower (codes "transfer-encoding:") && contains lower (codes "chunked"))
        (starts_with lower (codes "content-type:")) (starts_with lower (codes "origin:"))
        (starts_with lower (codes "content-length:")) (trim (drop 22 line)) (trim (drop 13 line))
        (trim (drop 7 line)) token (parse_usize (trim (drop 15 line))) h e

  read_headers-authorization :
      (lines : List Text) (token : Text) (h : Headers)
      → (read_headers to_lowercase lines h).authorization ≡ some token
      → SomeLine (GivesToken to_lowercase token) lines ⊎ (h.authorization ≡ some token)
  unfolding read_headers
  read_headers-authorization [] token h e = inr e
  read_headers-authorization (line ∷ lines) token h e =
      elim (read_headers-authorization lines token (read_header to_lowercase line h) e) [
        | inl later ↦ inl (inr later)
        | inr now ↦ elim (read_header-authorization line token h now) [
          | inl here ↦ inl (inl here)
          | inr old ↦ inr old
        ]
      ]

  request_line-headers :
      (words : List Text) (h : Headers) (head : Head)
      → request_line words h ≡ some head
      → h ≡ head.headers
  unfolding request_line
  request_line-headers [] h head e = cc
  request_line-headers (a ∷ []) h head e = cc
  request_line-headers (a ∷ (b ∷ [])) h head e = cc
  request_line-headers (a ∷ (b ∷ (c ∷ ws))) h head e = cc

  parse_lines-authorization :
      (lines : List Text) (head : Head) (token : Text)
      → parse_lines to_lowercase lines ≡ some head
      → head.headers.authorization ≡ some token
      → SomeLine (GivesToken to_lowercase token) lines
  unfolding parse_lines no_headers
  parse_lines-authorization [] head token e a = cc
  parse_lines-authorization (line ∷ lines) head token e a =
      let same = request_line-headers (split_whitespace line) _ head e in
      elim (read_headers-authorization lines token no_headers (rw same a)) [
        | inl given ↦ inr given
        | inr old ↦ cc
      ]

  -- The token of a request stands in one of its lines.
  pub parse_head-authorization :
      (s : Text) (head : Head) (token : Text)
      → parse_head to_lowercase s ≡ some head
      → head.headers.authorization ≡ some token
      → SomeLine (GivesToken to_lowercase token) (split_lines s)
  unfolding parse_head
  parse_head-authorization s head token e a =
      parse_lines-authorization (split_lines s) head token e a
