-- ===== src/Http/Paths.antt =====
-- src/http_server.rs: what the path of a request names, a session or a held call.
use intermcp.Prelude.{
  Text, codes, true, false, Option, none, some, List, [], ◌∷◌, text_is_eq, length, drop,
  starts_with, split,
}
use intermcp.Http.Head.{first_piece}

-- The text behind the first `pat`, if there is one.
behind : Text → Text → Option Text
unfolding starts_with
behind pat [] = none
behind pat (c ∷ s) = elim (starts_with (c ∷ s) pat) [
  | true ↦ some (drop (length pat) (c ∷ s))
  | false ↦ behind pat s
]

-- The text before the first `pat`.
before : Text → Text → Text
unfolding starts_with
before pat [] = []
before pat (c ∷ s) = elim (starts_with (c ∷ s) pat) [ true ↦ [] | false ↦ c ∷ before pat s ]

first_parameter : Option Text → Option Text
unfolding split first_piece before
first_parameter none = none
first_parameter (some rest) =
    let piece = before (codes "sessionId=") rest in some (first_piece piece (split b'&' piece))

-- `raw_path.split("sessionId=").nth(1)`, up to the next parameter.
unfoldable pub raw_session_id : Text → Option Text
unfolding behind first_parameter
raw_session_id raw_path = first_parameter (behind (codes "sessionId=") raw_path)

last_piece : List Text → Text
last_piece [] = []
last_piece (p ∷ []) = p
last_piece (p ∷ (q ∷ ps)) = last_piece (q ∷ ps)

-- `path.rsplit('/').next()`: the identifier of a held call.
unfoldable pub action_id : Text → Text
unfolding split last_piece
action_id p = last_piece (split b'/' p)
