-- ===== src/Http/Streams/Limit.antt =====
-- src/http_server.rs: how many streams `check_and_record_sse_ip` accepts of one address.
use intermcp.Prelude.{
  ℕ, suc, ◌+◌, ◌-◌, ◌^◌, ◌≤◌, ◌<◌, ◌≡◌, refl, arith, Text, Bool, true, false, ◌&&◌, Option, none,
  some, List, [], ◌∷◌, inl, inr, All, ◌==◌, ==_iff, ==_refl, text_is_eq, length, retain, ltb, leb,
  if◌then◌else◌, HashMap, lookup, lookup-insert, add_u32, add_u32-eq, Bool-cases,
}
use mathlib.Core.Bool.{and-false}
use intermcp.Http.Streams.{
  SseState, minute, is_recent, evict, count_connection, check_and_record_sse_ip,
}

-- A connection: its time and its address.
abbrev pub Connection : Type 0
Connection = ℕ × Text

-- The connections of an address that are accepted.
unfoldable pub accepted_of : Text → List Connection → SseState → ℕ
accepted_of ip [] s = 0
accepted_of ip (c ∷ cs) s =
    let (s', accepted) = check_and_record_sse_ip c.0 c.1 s in
    let rest = accepted_of ip cs s' in if accepted && c.1 == ip then suc rest else rest

retain-none :
    (p : Text × (ℕ × ℕ) → Bool) (ip : Text) (m : HashMap Text (ℕ × ℕ))
    → lookup ip m ≡ none
    → lookup ip (retain p m) ≡ none
unfolding lookup
retain-none p ip [] h = refl
retain-none p ip (e ∷ m) h = ground (arith, retain-none p ip m)

retain-some :
    (p : Text × (ℕ × ℕ) → Bool) (ip : Text) (e : ℕ × ℕ) (m : HashMap Text (ℕ × ℕ))
    → ((k : Text) → p (k, e) ≡ true)
    → lookup ip m ≡ some e
    → lookup ip (retain p m) ≡ some e
unfolding lookup
retain-some p ip e [] keep h = cc
retain-some p ip e ((k, f) ∷ m) keep h = ground (arith, retain-some p ip e m keep, keep k)

evict-none :
    (now : ℕ) (ip : Text) (m : HashMap Text (ℕ × ℕ))
    → lookup ip m ≡ none
    → lookup ip (evict now m) ≡ none
unfolding evict
evict-none now ip m h = ground (arith, retain-none (is_recent now) ip m h)

evict-some :
    (now : ℕ) (ip : Text) (e : ℕ × ℕ) (m : HashMap Text (ℕ × ℕ))
    → ltb (now - e.0) minute ≡ true
    → lookup ip m ≡ some e
    → lookup ip (evict now m) ≡ some e
unfolding evict
evict-some now ip e m young h = ground (arith, retain-some (is_recent now) ip e m (λ k. young) h)

-- Another address does not change an entry that has not expired.
other_address :
    (now : ℕ) (a ip : Text) (e : ℕ × ℕ) (s : SseState)
    → (a == ip) ≡ false
    → ltb (now - e.0) minute ≡ true
    → lookup ip s.ip_connections ≡ some e
    → lookup ip (check_and_record_sse_ip now a s).0.ip_connections ≡ some e
unfolding check_and_record_sse_ip
other_address now a ip e s other young h =
    rw (lookup-insert, other) (evict-some now ip e s.ip_connections young h)

-- What a connection leaves and gives, from the entry that is found.
own_address :
    (now : ℕ) (a ip : Text) (o : Option (ℕ × ℕ)) (s : SseState)
    → (a == ip) ≡ true
    → lookup a (evict now s.ip_connections) ≡ o
    → (lookup ip (check_and_record_sse_ip now a s).0.ip_connections
        ≡ some (count_connection now o).0)
      × ((check_and_record_sse_ip now a s).1 ≡ (count_connection now o).1)
unfolding check_and_record_sse_ip
own_address now a ip o s same h = (rw (lookup-insert, same, h) refl, rw h refl)

count_within :
    (now start n : ℕ)
    → now < start + minute
    → n < 2 ^ 32 - 1
    → count_connection now (some (start, n)) ≡ ((start, n + 1), leb (n + 1) 3)
unfolding count_connection
count_within now start n soon small = ground (arith, add_u32-eq n 1)

count_first : (now : ℕ) → count_connection now none ≡ ((now, 1), true)
unfolding count_connection add_u32
count_first now = ground arith

-- No connection comes a minute after `start`, or later.
abbrev pub AreWithin : ℕ → List Connection → Type 0
AreWithin start cs = All (λ c. c.0 < start + minute) cs

accepted_bound :
    (ip : Text) (start n : ℕ) (cs : List Connection) (s : SseState)
    → AreWithin start cs
    → n + length cs < 2 ^ 32
    → lookup ip s.ip_connections ≡ some (start, n)
    → accepted_of ip cs s ≤ 3 - n
unfolding accepted_of
accepted_bound ip start n [] s w small h = omega arith
accepted_bound ip start n ((now, a) ∷ cs) s (soon, w) small h =
    let s' = (check_and_record_sse_ip now a s).0 in
    let young : ltb (now - start) minute ≡ true = ground arith in
    elim (Bool-cases (a == ip)) [
      | inl same ↦
          let there =
            evict-some now a (start, n) s.ip_connections young (rw ((==_iff a ip).0 same) h) in
          let (found, gives) = own_address now a ip (some (start, n)) s same there in
          let counted = count_within now start n soon (omega arith) in
          let ih = accepted_bound ip start (n + 1) cs s' w (omega arith) (rw counted at found) in
          rw (same, gives, counted) (ground (arith, ih))
      | inr other ↦
          rw (other, and-false)
            (accepted_bound ip start n cs s' w (omega arith)
              (other_address now a ip (start, n) s other young h))
    ]

-- Of an address without an entry at most three connections are accepted in the minute that starts
-- with its first, whatever other addresses do, if fewer than 2^32 connections come.
pub accepted-le-3 :
    (ip : Text) (start : ℕ) (cs : List Connection) (s : SseState)
    → lookup ip s.ip_connections ≡ none
    → AreWithin start cs
    → suc (length cs) < 2 ^ 32
    → accepted_of ip ((start, ip) ∷ cs) s ≤ 3
unfolding accepted_of
accepted-le-3 ip start cs s new w small =
    let there = evict-none start ip s.ip_connections new in
    let (found, gives) = own_address start ip ip none s (==_refl ip) there in
    let rest =
      accepted_bound ip start 1 cs (check_and_record_sse_ip start ip s).0 w (omega arith)
        (rw count_first at found) in
    rw (gives, count_first, ==_refl ip) (ground (arith, rest))
