-- ===== src/Recording/Tests.antt =====
-- Runs of src/record.rs.
use intermcp.Recording.{
  on_frame, execute_call, judge, skip_call, SessionFrame, Progress, frame_of, inbound,
  responses_match, is_mutating_request, empty_summary, replay_frames,
}
use intermcp.Recording.Mutations.{is_mutating_request-Mutates_iff}
use intermcp.Json.{get, as_str, Value, string, object, field, end}
use intermcp.Prelude.{
  Bool-cases, inl, inr, eq_ignore_ascii_case, starts_with, ◌==◌, text_is_eq, if◌then◌else◌, ◌+◌,
  ◌≡◌, refl, ℕ, Text, codes, true, false, Option, none, some, List, [], ◌∷◌, All, text_eq,
}
use intermcp.Recording.Replay.{
  AgreeOnReads, replay_ignores_mutations, frames, shifts, Reproduces, replay_shifted,
}

abbrev call_of : Text → Value
call_of name = object (
    field (codes "method") (string (codes "tools/call"))
      (field (codes "params") (object (field (codes "name") (string name) end)) end))

commit_mutates : is_mutating_request (call_of (codes "git_commit")) ≡ true
unfolding is_mutating_request get text_eq as_str eq_ignore_ascii_case starts_with
commit_mutates = refl

status_reads : is_mutating_request (call_of (codes "git_status")) ≡ false
unfolding is_mutating_request get text_eq as_str eq_ignore_ascii_case starts_with
status_reads = refl

-- A printer of texts alone, and a server that echoes what it is given.
abbrev print_text : Value → Text
print_text (string t) = t
print_text _ = []

abbrev parse_text : Text → Option Value
parse_text t = some (string t)

abbrev echo : Text → ℕ → ℕ × Option Text
echo t n = (n, some t)

abbrev session : List (Value × Value)
session =
    (string (codes "a"), string (codes "a"))
    ∷ (string (codes "b"), string (codes "b"))
    ∷ (string (codes "b"), string (codes "b"))
    ∷ []

echo-Reproduces : All (Reproduces echo print_text parse_text) session
unfolding is_mutating_request get
echo-Reproduces =
    ((refl, (λ s. refl), refl), ((refl, (λ s. refl), refl), ((refl, (λ s. refl), refl), tt)))

replay_shifted_example :
    (replay_frames echo print_text parse_text false
      (frames session)
      (record { summary = empty_summary; expected = none; server = 0 })).summary.mismatched
    ≡ shifts none session
replay_shifted_example = replay_shifted echo print_text parse_text session 0 echo-Reproduces

one_shift : shifts none session ≡ 1
unfolding responses_match text_eq
one_shift = refl

-- A server that counts the requests to run a command, which the printer shows, and its like that
-- does not.
abbrev print_call : Value → Text
print_call q = if is_mutating_request q then codes "run" else codes "read"

abbrev counting : Text → ℕ → ℕ × Option Text
counting t n = if t == codes "run" then (n + 1, none) else (n, none)

abbrev idle : Text → ℕ → ℕ × Option Text
idle t n = (n, none)

servers_agree : AgreeOnReads print_call parse_text counting idle
servers_agree q reads s = elim (Bool-cases (is_mutating_request q)) [
  | inl mutates ↦ absurd (reads ((is_mutating_request-Mutates_iff q).0 mutates))
  | inr other ↦ rw other (unfold text_eq in refl)
]

-- A session that commits, writes a file and asks for a status.
abbrev mutating_session : List SessionFrame
mutating_session =
    frame_of 0 inbound (call_of (codes "git_commit"))
    ∷ frame_of 1 inbound (call_of (codes "FS_write_file"))
    ∷ frame_of 2 inbound (call_of (codes "git_status"))
    ∷ []

abbrev start : Progress ℕ
start = record { summary = empty_summary; expected = none; server = 0 }

-- With `allow_mutations` the two servers part; two calls are skipped without it.
commits_counted :
    ((replay_frames counting print_call parse_text true mutating_session start).server ≡ 2)
    × ((replay_frames idle print_call parse_text true mutating_session start).server ≡ 0)
    × ((replay_frames counting print_call parse_text false mutating_session
          start).summary.mismatched
        ≡ 2)
unfolding replay_frames on_frame frame_of execute_call text_eq is_mutating_request get as_str
    eq_ignore_ascii_case starts_with judge skip_call
commits_counted = (refl, refl, refl)

replay_ignores_mutations_example :
    replay_frames counting print_call parse_text false mutating_session start
    ≡ replay_frames idle print_call parse_text false mutating_session start
replay_ignores_mutations_example =
    replay_ignores_mutations print_call parse_text counting idle servers_agree mutating_session
      start
