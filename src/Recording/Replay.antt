-- ===== src/Recording/Replay.antt =====
-- src/record.rs: what a replay runs, and with what it compares.
use intermcp.Recording.{
  counted, empty_summary, SessionFrame, frame_of, inbound, outbound, FrameDirection, Progress,
  ReplaySummary, replay_frames, on_frame, execute_call, skip_call, judge, compare_values,
  responses_match, is_mutating_request,
}
use intermcp.Prelude.{
  ◌≡◌, refl, ap, ◌∙◌, arith, ℕ, ◌+◌, Text, false, Option, none, some, List, [], ◌∷◌, inl, inr,
  Bool-cases, if◌then◌else◌, All,
}
use intermcp.Recording.Mutations.{Mutates, is_mutating_request-Mutates_iff}
use intermcp.Json.{Value}

module _ {S : Type 0} (print : Value → Text) (parse : Text → Option Value)
    (handle handle' : Text → S → S × Option Text) where
  -- Two servers that treat all requests alike which are no call of a mutating tool.
  abbrev pub AgreeOnReads : Type 0
  AgreeOnReads = (q : Value) → ¬ Mutates q → (s : S) → handle (print q) s ≡ handle' (print q) s

  reading : (q : Value) → is_mutating_request q ≡ false → ¬ Mutates q
  reading q h m = ground (arith, (is_mutating_request-Mutates_iff q).1 m)

  on_frame-agree :
      AgreeOnReads
      → (dir : FrameDirection) (payload : Value) (p : Progress S)
      → on_frame handle print parse false dir payload p
        ≡ on_frame handle' print parse false dir payload p
  unfolding on_frame execute_call skip_call judge compare_values
  on_frame-agree agree outbound payload p = refl
  on_frame-agree agree inbound payload p = elim (Bool-cases (is_mutating_request payload)) [
    | inl mutating ↦ rw mutating refl
    | inr reads ↦ rw (reads, agree payload (reading payload reads) p.server) refl
  ]

  -- Without `allow_mutations` a replay ends in the same way, in its summary and in the state of the
  -- server, for two servers that treat alike every request but single calls of a mutating tool: one
  -- named system_run_command or fs_write_file, in any case of ASCII letters, or one whose name
  -- begins with "git_" and is not git_status, git_diff or git_log. So it does not depend on what a
  -- server does with such a call. A batch is not a single call, whatever it holds.
  pub replay_ignores_mutations :
      AgreeOnReads
      → (fs : List SessionFrame) (p : Progress S)
      → replay_frames handle print parse false fs p ≡ replay_frames handle' print parse false fs p
  unfolding replay_frames
  replay_ignores_mutations agree [] p = refl
  replay_ignores_mutations agree (f ∷ fs) p =
      rw (on_frame-agree agree f.dir f.payload p)
        (replay_ignores_mutations agree fs (on_frame handle' print parse false f.dir f.payload p))

-- The frames of a session as `handle_raw_message` records it: each request before its response.
pub frames : List (Value × Value) → List SessionFrame
frames [] = []
frames ((q, r) ∷ xs) = frame_of 0 inbound q ∷ frame_of 0 outbound r ∷ frames xs

-- A response differs from the one before it, up to their identifiers.
abbrev pub differing : Option Value → Value → ℕ
differing none r = 0
differing (some before) r = if responses_match before r then 0 else 1

-- The responses that differ from the response before them.
abbrev pub shifts : Option Value → List (Value × Value) → ℕ
shifts before [] = 0
shifts before ((q, r) ∷ xs) = differing before r + shifts (some r) xs

module _ {S : Type 0} (handle : Text → S → S × Option Text) (print : Value → Text)
    (parse : Text → Option Value) where
  -- The server still gives the recorded response, and it is read back.
  abbrev pub Reproduces : Value × Value → Type 0
  Reproduces (q, r) =
      (is_mutating_request q ≡ false)
      × ((s : S) → (handle (print q) s).1 ≡ some (print r))
      × (parse (print r) ≡ some r)

  judge-mismatched :
      (o : Option Value) (r : Value) (summary : ReplaySummary)
      → parse (print r) ≡ some r
      → (judge handle print parse o (some (print r)) summary).mismatched
        ≡ summary.mismatched + differing o r
  unfolding judge compare_values
  judge-mismatched none r summary h = omega arith
  judge-mismatched (some before) r summary h = ground arith

  -- What a request and its response do to the progress.
  abbrev after_exchange : Value → Value → Progress S → Progress S
  after_exchange q r p =
      on_frame handle print parse false outbound r (on_frame handle print parse false inbound q p)

  exchange :
      (q r : Value) (p : Progress S)
      → Reproduces (q, r)
      → ((after_exchange q r p).summary.mismatched ≡ p.summary.mismatched + differing p.expected r)
        × ((after_exchange q r p).expected ≡ some r)
  unfolding on_frame execute_call
  exchange q r p (reads, answers, back) =
      (rw (reads, answers p.server) (judge-mismatched p.expected r (counted p.summary) back), refl)

  replay-mismatched :
      (xs : List (Value × Value)) (p : Progress S)
      → All Reproduces xs
      → (replay_frames handle print parse false (frames xs) p).summary.mismatched
        ≡ p.summary.mismatched + shifts p.expected xs
  unfolding replay_frames frames frame_of
  replay-mismatched [] p h = omega arith
  replay-mismatched ((q, r) ∷ xs) p (h, hs) =
      let (more, expects) = exchange q r p h in
      let rest = replay-mismatched xs (after_exchange q r p) hs in
      omega (arith, rest, more, ap (λ (o : Option Value). shifts o xs) expects)

  -- A session whose every request is reproduced by the server, and mutates nothing, is replayed with
  -- a mismatch for each response that differs from the response before it: a call is compared with
  -- the response of the call before it.
  pub replay_shifted :
      (xs : List (Value × Value)) (server : S)
      → All Reproduces xs
      → (replay_frames handle print parse false
          (frames xs)
          (record { summary = empty_summary; expected = none; server = server })).summary.mismatched
        ≡ shifts none xs
  replay_shifted xs server h =
      replay-mismatched xs (record { summary = empty_summary; expected = none; server = server }) h
      ∙ omega arith
