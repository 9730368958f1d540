-- ===== src/Http/Streams/Framing.antt =====
-- src/http_server.rs: what a client reads from the event that is written for a payload.
use intermcp.Prelude.{
  ℕ, ◌≡◌, ◌≢◌, ◌||◌, refl, arith, ap, Text, codes, true, false, List, [], ◌∷◌, ◌++◌, drop, eqb_iff,
  starts_with, contains_char, split,
}
use mathlib.Core.List.{append_assoc, append-nil}
use intermcp.Http.Streams.{unify_newlines, data_lines, message_event}

-- A client of event streams, as the HTML standard describes it, for fields with one space.
pub record Event : Type 0 where
  pub kind : Text
  pub payload : Text

without_last : Text → Text
without_last [] = []
without_last (c ∷ []) = []
without_last (c ∷ (d ∷ s)) = c ∷ without_last (d ∷ s)

-- Its buffers for the kind and the data of an event, over the lines of the stream. A blank line
-- ends an event; one without data is none.
pub read_events : (kind value : Text) → List Text → List Event
unfolding starts_with without_last
read_events kind value [] = []
read_events kind value ([] ∷ lines) = elim value [
  | [] ↦ read_events [] [] lines
  | d ∷ ds ↦ record { kind = kind; payload = without_last (d ∷ ds) } ∷ read_events [] [] lines
]
read_events kind value ((c ∷ s) ∷ lines) = elim (starts_with (c ∷ s) (codes "event: ")) [
  | true ↦ read_events (drop 7 (c ∷ s)) value lines
  | false ↦ elim (starts_with (c ∷ s) (codes "data: ")) [
    | true ↦ read_events kind (value ++ drop 6 (c ∷ s) ++ 10 ∷ []) lines
    | false ↦ read_events kind value lines
  ]
]

unify_newlines-no_cr : (s : Text) → contains_char (unify_newlines s) 13 ≡ false
unfolding contains_char unify_newlines
unify_newlines-no_cr [] = refl
unify_newlines-no_cr (c ∷ []) = ground arith
unify_newlines-no_cr (c ∷ (d ∷ s)) =
    ground (arith, unify_newlines-no_cr s, unify_newlines-no_cr (d ∷ s))

abbrev NoNewlines : List Text → Type 0
NoNewlines [] = Unit
NoNewlines (p ∷ ps) = (contains_char p 10 ≡ false) × NoNewlines ps

-- The pieces, each with a newline behind it.
abbrev terminated : List Text → Text
terminated [] = []
terminated (p ∷ ps) = p ++ 10 ∷ terminated ps

split-line : (p s : Text) → contains_char p 10 ≡ false → split 10 (p ++ 10 ∷ s) ≡ p ∷ split 10 s
unfolding split contains_char
split-line [] s h = refl
split-line (c ∷ p) s h = ground (arith, split-line p s)

split-NoNewlines : (s : Text) → NoNewlines (split 10 s)
unfolding split contains_char
split-NoNewlines [] = (refl, tt)
split-NoNewlines (c ∷ s) = ground (arith, split-NoNewlines s, eqb_iff c 10)

snoc-nonempty : (s : Text) → s ++ 10 ∷ [] ≢ []
snoc-nonempty [] h = cc
snoc-nonempty (c ∷ s) h = cc

terminated-split : (s : Text) → terminated (split 10 s) ≡ s ++ 10 ∷ []
unfolding split
terminated-split [] = refl
terminated-split (c ∷ s) = ground (arith, terminated-split s, eqb_iff c 10, snoc-nonempty s)

without_last-newline : (s : Text) → without_last (s ++ 10 ∷ []) ≡ s
unfolding without_last
without_last-newline [] = refl
without_last-newline (c ∷ []) = refl
without_last-newline (c ∷ (d ∷ s)) = ap (λ t. c ∷ t) (without_last-newline (d ∷ s))

abbrev prefixed : List Text → List Text
prefixed [] = []
prefixed (p ∷ ps) = (codes "data: " ++ p) ∷ prefixed ps

-- The lines of an event's data and of what follows them.
split-data_lines :
    (ps : List Text) (s : Text)
    → NoNewlines ps
    → split 10 (data_lines ps ++ s) ≡ prefixed ps ++ split 10 s
unfolding data_lines
split-data_lines [] s h = refl
split-data_lines (p ∷ ps) s (here, h) =
    rw
      (
        append_assoc,
        split-line (codes "data: " ++ p) (data_lines ps ++ s) (unfold contains_char in here),
      )
      (ap (λ q. (codes "data: " ++ p) ∷ q) (split-data_lines ps s h))

-- The lines of an event's data fill the buffer.
read-prefixed :
    (ps lines : List Text) (kind value : Text)
    → read_events kind value (prefixed ps ++ lines)
      ≡ read_events kind (value ++ terminated ps) lines
unfolding starts_with read_events
read-prefixed [] lines kind value = rw append-nil refl
read-prefixed (p ∷ ps) lines kind value =
    rw (read-prefixed ps lines kind (value ++ p ++ 10 ∷ []), append_assoc, append_assoc) refl

read_blank :
    (kind s : Text)
    → read_events kind (s ++ 10 ∷ []) ([] ∷ [] ∷ []) ≡ record { kind = kind; payload = s } ∷ []
unfolding read_events
read_blank kind [] = refl
read_blank kind (c ∷ s) = rw (without_last-newline (c ∷ s)) refl

contains_char-append :
    (s t : Text) (c : ℕ) → contains_char (s ++ t) c ≡ (contains_char s c || contains_char t c)
unfolding contains_char
contains_char-append [] t c = refl
contains_char-append (d ∷ s) t c = ground (arith, contains_char-append s t c)

contains_char-data_lines :
    (ps : List Text) → contains_char (data_lines ps) 13 ≡ contains_char (terminated ps) 13
unfolding contains_char data_lines
contains_char-data_lines [] = refl
contains_char-data_lines (p ∷ ps) =
    rw (contains_char-append p, contains_char-append p, contains_char-data_lines ps) refl

-- What a payload is written as is one event of kind "message" to a client: no carriage return
-- stands in it, and the data that the client reads is the payload with each of its line ends,
-- "\r\n" and "\r" as well, as "\n".
pub message_event-read :
    (payload : Text)
    → (contains_char (message_event payload) 13 ≡ false)
      × (read_events [] [] (split 10 (message_event payload))
          ≡ record { kind = codes "message"; payload = unify_newlines payload } ∷ [])
unfolding message_event split starts_with contains_char read_events
message_event-read payload =
    let text = unify_newlines payload in
    let ps = split 10 text in
    (
      rw
          (
            contains_char-append (data_lines ps),
            contains_char-data_lines,
            terminated-split,
            contains_char-append text,
            unify_newlines-no_cr payload,
          )
          refl,
      rw
          (
            split-data_lines ps (10 ∷ []) (split-NoNewlines text),
            read-prefixed ps ([] ∷ [] ∷ []) (codes "message") [],
            terminated-split text,
          )
          (read_blank (codes "message") text),
    )
