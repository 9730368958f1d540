-- ===== src/Http/Routes/Access.antt =====
-- src/http_server.rs: what a connection can do without the token of the server.
use intermcp.Prelude.{
  ℕ, ◌≡◌, refl, arith, Text, codes, true, Option, none, some, List, [], ◌⊎◌, inl, inr, text_is_eq,
  text_eq, ==_iff, take,
}
use intermcp.Error.{Result, ok, err}
use intermcp.Server.State.{Host}
use intermcp.Server.Messages.{Wire}
use intermcp.Http.Head.{
  Read, HeadRead, no_head, head_too_large, head_read, read_head, Head, path, parse_head,
  split_lines,
}
use intermcp.Http.Head.Authorization.{GivesToken, SomeLine, parse_head-authorization}
use intermcp.Http.Guards.{
  HttpServerConfig, Refusal, headers_too_large, authorized, is_public_get, check_head,
}
use intermcp.Http.Routes.{
  HttpState, Visit, Response, refusal, health, route, with_body, checked, handle_head, handle_read,
  handle_conn,
}

-- What anyone may be told: nothing, a refusal, or that the server is healthy.
abbrev pub IsPublic : Option Response → Type 0
IsPublic r = (r ≡ none) ⊎ ((e : Refusal) × (r ≡ some (refusal e))) ⊎ (r ≡ some health)

authorized-token :
    (expected : Text) (given : Option Text)
    → authorized (some expected) given ≡ true
    → given ≡ some expected
unfolding authorized
authorized-token expected none h = cc
authorized-token expected (some t) h = ground (arith, ==_iff t expected)

check_head-ok :
    (config : HttpServerConfig) (head : Head) (u : Unit {0})
    → check_head config head ≡ ok u
    → (authorized config.auth_token head.headers.authorization ≡ true) ⊎ (is_public_get head ≡ true)
unfolding check_head
check_head-ok config head u h = ground arith

module _ (host : Host) (wire : Wire) (utf8_lossy : List ℕ → Text) (config : HttpServerConfig) where
  route-health :
      (v : Visit) (head : Head) (body : Text) (st : HttpState)
      → head.method ≡ codes "GET"
      → path head ≡ codes "/health"
      → route host wire utf8_lossy config v head body st ≡ (st, health)
  unfolding route text_eq
  route-health v head body st m p = rw (m, p) refl

  route-public :
      (v : Visit) (head : Head) (body : Text) (st : HttpState)
      → is_public_get head ≡ true
      → route host wire utf8_lossy config v head body st ≡ (st, health)
  unfolding is_public_get
  route-public v head body st h =
      let get = ==_iff head.method (codes "GET") in
      let at_health = ==_iff (path head) (codes "/health") in
      route-health v head body st (ground (arith, get)) (ground (arith, at_health))

  -- Without a matching token a request whose head is read changes nothing and is told nothing.
  abbrev Unseen : HttpState → HttpState × Response → Type 0
  Unseen st (st', r) = (st' ≡ st) × IsPublic (some r)

  with_body-Unseen :
      (v : Visit) (head : Head) (header_end : ℕ) (b : Result (List ℕ) Refusal) (st : HttpState)
      → is_public_get head ≡ true
      → Unseen st (with_body host wire utf8_lossy config v head header_end b st)
  unfolding with_body
  with_body-Unseen v head header_end (err e) st h = (refl, inr (inl (e, refl)))
  with_body-Unseen v head header_end (ok buffer) st h =
      rw (route-public v head _ st h) (refl, inr (inr refl))

  checked-Unseen :
      (v : Visit) (head : Head) (header_end : ℕ) (buffer : List ℕ) (reads : List Read)
      (c : Result (Unit {0}) Refusal) (st : HttpState) (token : Text)
      → check_head config head ≡ c
      → config.auth_token ≡ some token
      → (head.headers.authorization ≡ some token)
        ⊎ Unseen st (checked host wire utf8_lossy config v head header_end buffer reads c st)
  unfolding checked
  checked-Unseen v head header_end buffer reads (err e) st token h t =
      inr (refl, inr (inl (e, refl)))
  checked-Unseen v head header_end buffer reads (ok u) st token h t =
      elim (check_head-ok config head u h) [
        | inl good ↦ inl (authorized-token token head.headers.authorization (rw t at good))
        | inr public ↦ inr (with_body-Unseen v head header_end _ st public)
      ]

  -- What is read has a head with a line that gives the token.
  abbrev pub Presents : Text → List Read → Type 0
  Presents token reads =
      (buffer : List ℕ) × (header_end : ℕ) × (rest : List Read) × (read_head [] reads
        ≡ head_read buffer header_end rest)
      × SomeLine (GivesToken host.to_lowercase token)
          (split_lines (utf8_lossy (take header_end buffer)))

  handle_head-Unseen :
      (v : Visit) (o : Option Head) (header_end : ℕ) (buffer : List ℕ) (reads : List Read)
      (st : HttpState) (text token : Text)
      → parse_head host.to_lowercase text ≡ o
      → config.auth_token ≡ some token
      → SomeLine (GivesToken host.to_lowercase token) (split_lines text)
        ⊎ (((handle_head host wire utf8_lossy config v o header_end buffer reads st).0 ≡ st)
            × IsPublic (handle_head host wire utf8_lossy config v o header_end buffer reads st).1)
  unfolding handle_head
  handle_head-Unseen v none header_end buffer reads st text token h t = inr (refl, inl refl)
  handle_head-Unseen v (some head) header_end buffer reads st text token h t =
      elim (checked-Unseen v head header_end buffer reads _ st token refl t) [
        | inl given ↦ inl (parse_head-authorization host.to_lowercase text head token h given)
        | inr unseen ↦ inr unseen
      ]

  handle_read-Unseen :
      (v : Visit) (r : HeadRead) (reads : List Read) (st : HttpState) (token : Text)
      → read_head [] reads ≡ r
      → config.auth_token ≡ some token
      → Presents token reads
        ⊎ (((handle_read host wire utf8_lossy config v r st).0 ≡ st)
            × IsPublic (handle_read host wire utf8_lossy config v r st).1)
  unfolding handle_read
  handle_read-Unseen v no_head reads st token h t = inr (refl, inl refl)
  handle_read-Unseen v head_too_large reads st token h t =
      inr (refl, inr (inl (headers_too_large, refl)))
  handle_read-Unseen v (head_read buffer header_end rest) reads st token h t =
      let text = utf8_lossy (take header_end buffer) in
      elim (handle_head-Unseen v _ header_end buffer rest st text token refl t) [
        | inl given ↦ inl (buffer, header_end, rest, h, given)
        | inr unseen ↦ inr unseen
      ]

  -- On a server with a token, whatever a connection sends, either a line of its head gives that
  -- token as a bearer, or the connection changes nothing in the server, its sessions and its
  -- streams, and is told nothing, a refusal, or that the server is healthy.
  pub token_or_nothing :
      (v : Visit) (reads : List Read) (st : HttpState) (token : Text)
      → config.auth_token ≡ some token
      → Presents token reads
        ⊎ (((handle_conn host wire utf8_lossy config v reads st).0 ≡ st)
            × IsPublic (handle_conn host wire utf8_lossy config v reads st).1)
  unfolding handle_conn
  token_or_nothing v reads st token t = handle_read-Unseen v _ reads st token refl t
