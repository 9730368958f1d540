-- ===== src/Smac/Replay.antt =====
-- What `record` writes, `verify_smac_log_chain` accepts (src/smac.rs), and what it does not look at.
use intermcp.Prelude.{
  ℕ, ◌+◌, ◌^◌, ◌≡◌, refl, sym, ap, ◌∙◌, arith, Text, List, [], ◌∷◌, ◌++◌, text_is_eq, trim,
  is_empty, false, length, map, ◌<◌, add_u64-eq, Bool-cases, inl, inr,
}
use intermcp.Error.{Result, ok}
use intermcp.Json.{Value}
use intermcp.Smac.{
  SmacEntry, SmacLogger, genesis_hash, entry, log, new, verify_smac_log_chain, verify_from,
  check_line, check_entry, compute_entry_hash, resume,
}
use intermcp.Smac.Chain.{expected, pass_line, check_line-ok, verify_blank, verify_full}

-- A call that is audited.
pub record Audited : Type 0 where
  pub ts : ℕ
  pub tool : Text
  pub args : Value
  pub result : Value

module _ (sha256 : List ℕ → Text) (hash_value : Value → Text) (print : SmacEntry → Text) where
  abbrev pub log_all : List Audited → SmacLogger → SmacLogger
  log_all [] l = l
  log_all (a ∷ more) l = log_all more (log sha256 print hash_value a.ts a.tool a.args a.result l)

-- The logger of a new file.
abbrev pub fresh : SmacLogger
fresh = record { lines = []; last_hash = genesis_hash; counter = 0 }

-- Another time stamp for an entry.
abbrev pub retime : (SmacEntry → ℕ) → SmacEntry → SmacEntry
retime f e = record e { ts = f e }

module _ (sha256 : List ℕ → Text) (parse : Text → Result SmacEntry Text) where
  -- Reading goes on behind an accepted beginning.
  verify_after :
      (ls ms : List Text) (line n : ℕ) (p : Text) (m : ℕ) (h : Text)
      → verify_from sha256 parse line n p ls ≡ ok (m, h)
      → verify_from sha256 parse line n p (ls ++ ms)
        ≡ verify_from sha256 parse (line + length ls) m h ms
  verify_after [] ms line n p m h v =
      let same_count : n ≡ m = (unfold verify_from in cc) in
      let same_hash : p ≡ h = (unfold verify_from in cc) in
      ap (λ k. verify_from sha256 parse line k p ms) same_count
      ∙ ap (λ q. verify_from sha256 parse line m q ms) same_hash
      ∙ ap (λ k. verify_from sha256 parse k m h ms) (omega arith)
  verify_after (l ∷ ls) ms line n p m h v = elim (Bool-cases (is_empty (trim l))) [
    | inl blank ↦
        verify_blank sha256 parse line n p l (ls ++ ms) blank
        ∙ verify_after ls ms (line + 1) n p m h
            (sym (verify_blank sha256 parse line n p l ls blank) ∙ v)
        ∙ ap (λ k. verify_from sha256 parse k m h ms) (omega arith)
    | inr full ↦
        let (e, parsed, prev, hash, rest) =
          check_line-ok sha256 parse (parse (trim l)) line p _ (m, h)
            (sym (verify_full sha256 parse line n p l ls full) ∙ v) in
        verify_full sha256 parse line n p l (ls ++ ms) full
        ∙ ap
            (λ r.
              check_line sha256 parse r line p
                (λ x. verify_from sha256 parse (line + 1) (n + 1) x (ls ++ ms)))
            parsed
        ∙ pass_line sha256 parse e line p _ prev hash
        ∙ verify_after ls ms (line + 1) (n + 1) e.hash m h rest
        ∙ ap (λ k. verify_from sha256 parse k m h ms) (omega arith)
  ]

-- The file format: an entry's line is read back as the entry.
module _ (sha256 : List ℕ → Text) (hash_value : Value → Text) (print : SmacEntry → Text)
    (parse : Text → Result SmacEntry Text) (reads : (e : SmacEntry) → parse (trim (print e)) ≡ ok e)
    (is_full : (e : SmacEntry) → is_empty (trim (print e)) ≡ false) where
  verify_one :
      (line n : ℕ) (p : Text) (e : SmacEntry) (ls : List Text)
      → e.prev_hash ≡ p
      → e.hash ≡ expected sha256 e
      → verify_from sha256 parse line n p (print e ∷ ls)
        ≡ verify_from sha256 parse (line + 1) (n + 1) e.hash ls
  verify_one line n p e ls hp he =
      verify_full sha256 parse line n p (print e) ls (is_full e)
      ∙ ap
          (λ r.
            check_line sha256 parse r line p
              (λ x. verify_from sha256 parse (line + 1) (n + 1) x ls))
          (reads e)
      ∙ pass_line sha256 parse e line p _ hp he

  -- The file of a logger is accepted, with the logger's count and hash.
  abbrev pub IsAccepted : SmacLogger → Type 0
  IsAccepted l = verify_smac_log_chain sha256 parse l.lines ≡ ok (l.counter, l.last_hash)

  log-IsAccepted :
      (ts : ℕ) (tool : Text) (args result : Value) (l : SmacLogger)
      → l.counter + 1 < 2 ^ 64
      → IsAccepted l
      → IsAccepted (log sha256 print hash_value ts tool args result l)
  unfolding verify_smac_log_chain log
  log-IsAccepted ts tool args result l small v =
      let e = entry sha256 ts tool (hash_value args) (hash_value result) l in
      verify_after sha256 parse l.lines (print e ∷ []) 1 0 genesis_hash l.counter l.last_hash v
      ∙ verify_one (1 + length l.lines) l.counter l.last_hash e [] (unfold entry in refl)
          (unfold entry compute_entry_hash in refl)
      ∙ (unfold verify_from in ap (λ n. ok (n, e.hash)) (sym (add_u64-eq l.counter 1 small)))

  log_all-IsAccepted :
      (calls : List Audited) (l : SmacLogger)
      → l.counter + length calls < 2 ^ 64
      → IsAccepted l
      → IsAccepted (log_all sha256 hash_value print calls l)
        × ((log_all sha256 hash_value print calls l).counter ≡ l.counter + length calls)
  log_all-IsAccepted [] l small v = (v, omega arith)
  log_all-IsAccepted (a ∷ more) l small v =
      let l' = log sha256 print hash_value a.ts a.tool a.args a.result l in
      let next : l'.counter ≡ l.counter + 1 =
        (unfold log in add_u64-eq l.counter 1 (omega (arith, small))) in
      let (accepted, counted) =
        log_all-IsAccepted more l' (omega (arith, small, next))
          (log-IsAccepted a.ts a.tool a.args a.result l (omega (arith, small)) v) in
      (accepted, omega (arith, counted, next))

  new-resume :
      (ls : List Text)
      → new sha256 parse ls ≡ resume sha256 parse ls (verify_smac_log_chain sha256 parse ls)
  unfolding new resume verify_smac_log_chain verify_from
  new-resume [] = refl
  new-resume (l ∷ ls) = refl

  -- If the line of every entry is read back as that entry, then after fewer than 2^64 calls are
  -- recorded in a new file, the file is accepted with their number and the logger's last hash, and
  -- a logger that is started on the file is the logger that wrote it.
  pub verify-log_all :
      (calls : List Audited)
      → length calls < 2 ^ 64
      → (verify_smac_log_chain sha256 parse (log_all sha256 hash_value print calls fresh).lines
          ≡ ok (length calls, (log_all sha256 hash_value print calls fresh).last_hash))
        × (new sha256 parse (log_all sha256 hash_value print calls fresh).lines
            ≡ ok (log_all sha256 hash_value print calls fresh))
  verify-log_all calls small =
      let l = log_all sha256 hash_value print calls fresh in
      let (accepted, counted) =
        log_all-IsAccepted calls fresh (omega (arith, small))
          (unfold verify_smac_log_chain verify_from in refl) in
      let count : l.counter ≡ length calls = omega (arith, counted) in
      (
        accepted ∙ ap (λ n. ok (n, l.last_hash)) count,
        new-resume l.lines
            ∙ ap (resume sha256 parse l.lines) accepted
            ∙ (unfold resume in
                ap (λ n. ok (record { lines = l.lines; last_hash = l.last_hash; counter = n }))
                  (omega (arith, count, small))),
      )

  retimed :
      (f : SmacEntry → ℕ) (es : List SmacEntry) (line n : ℕ) (p : Text)
      → verify_from sha256 parse line n p (map print (map (retime f) es))
        ≡ verify_from sha256 parse line n p (map print es)
  unfolding check_line check_entry
  retimed f [] line n p = refl
  retimed f (e ∷ es) line n p =
      let rest = λ (ls : List Text) (x : Text). verify_from sha256 parse (line + 1) (n + 1) x ls in
      verify_full sha256 parse line n p (print (retime f e)) _ (is_full (retime f e))
      ∙ ap (λ r. check_line sha256 parse r line p (rest (map print (map (retime f) es))))
          (reads (retime f e))
      ∙ ground (arith, retimed f es (line + 1) (n + 1) e.hash)
      ∙ ap (λ r. check_line sha256 parse r line p (rest (map print es))) (sym (reads e))
      ∙ sym (verify_full sha256 parse line n p (print e) _ (is_full e))

  -- If the line of every entry is read back as that entry, the time stamps of the entries may be
  -- changed at will: the verification of the file gives the same result.
  pub verify_ignores_ts :
      (f : SmacEntry → ℕ) (es : List SmacEntry)
      → verify_smac_log_chain sha256 parse (map print (map (retime f) es))
        ≡ verify_smac_log_chain sha256 parse (map print es)
  unfolding verify_smac_log_chain
  verify_ignores_ts f es = retimed f es 1 0 genesis_hash
