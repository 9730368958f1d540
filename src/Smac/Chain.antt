-- ===== src/Smac/Chain.antt =====
-- What an accepted audit file of src/smac.rs is, and what it commits to.
use intermcp.Prelude.{
  zero, suc, suc, ℕ, ◌+◌, ◌≡◌, ◌≢◌, ◌⊎◌, inl, inr, refl, sym, ap, ◌∙◌, arith, Text, List, [], ◌∷◌,
  ◌++◌, ◌==◌, ==_iff, text_is_eq, if◌then◌else◌, as_bytes, to_string, trim, is_empty, true, false,
  length, map, Bool-cases, All, ◌<◌, encode,
}
use intermcp.Error.{Result, ok, err, Message}
use intermcp.Smac.{
  SmacEntry, genesis_hash, compute_entry_hash, verify_smac_log_chain, verify_from, check_line,
  check_entry,
}

module _ (sha256 : List ℕ → Text) where
  abbrev pub expected : SmacEntry → Text
  expected e = compute_entry_hash sha256 e.prev_hash e.index e.tool e.req_hash e.resp_hash

  -- A chain of entries from one hash to another.
  abbrev pub IsChain : Text → List SmacEntry → Text → Type 0
  IsChain p [] h = p ≡ h
  IsChain p (e ∷ es) h = (e.prev_hash ≡ p) × (e.hash ≡ expected e) × IsChain e.hash es h

  module _ (parse : Text → Result SmacEntry Text) where
    abbrev add : Result SmacEntry Text → List SmacEntry → List SmacEntry
    add (ok e) es = e ∷ es
    add (err x) es = es

    -- The entries on the lines of a file.
    abbrev pub entries : List Text → List SmacEntry
    entries [] = []
    entries (l ∷ ls) = if is_empty (trim l) then entries ls else add (parse (trim l)) (entries ls)

    pub pass_line :
        (e : SmacEntry) (line : ℕ) (p : Text) (rest : Text → Result (ℕ × Text) Message)
        → e.prev_hash ≡ p
        → e.hash ≡ expected e
        → check_line sha256 parse (ok e) line p rest ≡ rest e.hash
    unfolding check_line check_entry
    pass_line e line p rest hp hh = ground (arith, ==_iff e.prev_hash p, ==_iff e.hash (expected e))

    pub check_line-ok :
        (r : Result SmacEntry Text) (line : ℕ) (p : Text) (rest : Text → Result (ℕ × Text) Message)
        (res : ℕ × Text)
        → check_line sha256 parse r line p rest ≡ ok res
        → (e : SmacEntry) × (r ≡ ok e)
          × (e.prev_hash ≡ p)
          × (e.hash ≡ expected e)
          × (rest e.hash ≡ ok res)
    unfolding check_line check_entry
    check_line-ok (ok e) line p rest res h =
        let same_prev = ==_iff e.prev_hash p in
        let same_hash = ==_iff e.hash (expected e) in
        (
          e,
          refl,
          ground (arith, same_prev, same_hash),
          ground (arith, same_prev, same_hash),
          ground (arith, same_prev, same_hash),
        )
    check_line-ok (err x) line p rest res h = cc

    pub verify_blank :
        (line n : ℕ) (p l : Text) (ls : List Text)
        → is_empty (trim l) ≡ true
        → verify_from sha256 parse line n p (l ∷ ls) ≡ verify_from sha256 parse (line + 1) n p ls
    unfolding verify_from
    verify_blank line n p l ls h = ground arith

    pub verify_full :
        (line n : ℕ) (p l : Text) (ls : List Text)
        → is_empty (trim l) ≡ false
        → verify_from sha256 parse line n p (l ∷ ls)
          ≡ check_line sha256 parse
              (parse (trim l))
              line
              p
              (λ hash. verify_from sha256 parse (line + 1) (n + 1) hash ls)
    unfolding verify_from
    verify_full line n p l ls h = ground arith

    accepted-IsChain :
        (line n : ℕ) (p : Text) (ls : List Text) (m : ℕ) (h : Text)
        → verify_from sha256 parse line n p ls ≡ ok (m, h)
        → IsChain p (entries ls) h × (m ≡ n + length (entries ls))
    unfolding verify_from
    accepted-IsChain line n p [] m h v = (cc, ground arith)
    accepted-IsChain line n p (l ∷ ls) m h v = elim (Bool-cases (is_empty (trim l))) [
      | inl blank ↦
          rw blank
            (accepted-IsChain (line + 1) n p ls m h (sym (verify_blank line n p l ls blank) ∙ v))
      | inr full ↦
          let (e, parsed, prev, hash, rest) =
            check_line-ok (parse (trim l)) line p _ (m, h)
              (sym (verify_full line n p l ls full) ∙ v) in
          let (chain, counted) = accepted-IsChain (line + 1) (n + 1) e.hash ls m h rest in
          rw (full, parsed) ((prev, hash, chain), omega (arith, counted))
    ]

    pub verify-IsChain :
        (ls : List Text) (m : ℕ) (h : Text)
        → verify_smac_log_chain sha256 parse ls ≡ ok (m, h)
        → IsChain genesis_hash (entries ls) h × (m ≡ length (entries ls))
    unfolding verify_smac_log_chain
    verify-IsChain ls m h v =
        let (chain, counted) = accepted-IsChain 1 0 genesis_hash ls m h v in
        (chain, omega (arith, counted))

  -- What the hash of an entry covers: the previous hash, and the joined bytes of the rest.
  abbrev pub body : SmacEntry → List ℕ
  body e =
      as_bytes (to_string e.index) ++ as_bytes e.tool ++ as_bytes e.req_hash ++ as_bytes e.resp_hash

  abbrev pub covered : SmacEntry → List ℕ
  covered e = as_bytes e.prev_hash ++ body e

  -- Two entries cover different bytes of the same digest.
  abbrev pub Collide : SmacEntry → SmacEntry → Type 0
  Collide e f = (covered e ≢ covered f) × (sha256 (covered e) ≡ sha256 (covered f))

  -- Two entries at one place of two files collide.
  abbrev pub SomeCollide : List SmacEntry → List SmacEntry → Type 0
  SomeCollide [] fs = ⊥
  SomeCollide (e ∷ es) [] = ⊥
  SomeCollide (e ∷ es) (f ∷ fs) = Collide e f ⊎ SomeCollide es fs

-- 64 characters of one byte, as a hexadecimal SHA-256 digest is.
abbrev pub IsDigest : Text → Type 0
IsDigest s = (length s ≡ 64) × All (λ c. c < 0x80) s

as_bytes-ascii : (s : Text) → All (λ c. c < 0x80) s → as_bytes s ≡ s
unfolding as_bytes encode
as_bytes-ascii [] h = refl
as_bytes-ascii (c ∷ s) (low, h) = ground (arith, as_bytes-ascii s h)

-- Texts of the same length at the head of the same text are the same.
same_head :
    (n : ℕ) (p q r s : List ℕ) → length p ≡ n → length q ≡ n → p ++ r ≡ q ++ s → (p ≡ q) × (r ≡ s)
same_head n [] [] r s hp hq h = (refl, h)
same_head n [] (y ∷ q) r s hp hq h = ground arith
same_head n (x ∷ p) [] r s hp hq h = ground arith
same_head zero (x ∷ p) (y ∷ q) r s hp hq h = ground arith
same_head (suc n) (x ∷ p) (y ∷ q) r s hp hq h =
    let (tails, rests) = same_head n p q r s (omega (arith, hp)) (omega (arith, hq)) (cc) in
    (ground (arith, tails), rests)

-- The digests and the covered bytes of two chains with the same end.
module _ (sha256 : List ℕ → Text) (digests : (x : List ℕ) → IsDigest (sha256 x)) where
  -- The covered bytes tell the previous hash.
  covered_prev :
      (e f : SmacEntry)
      → IsDigest e.prev_hash
      → IsDigest f.prev_hash
      → covered sha256 e ≡ covered sha256 f
      → e.prev_hash ≡ f.prev_hash
  covered_prev e f de df h =
      let (same, rest) =
        same_head 64 e.prev_hash f.prev_hash (body sha256 e) (body sha256 f) de.0 df.0
          (rw (as_bytes-ascii e.prev_hash de.1, as_bytes-ascii f.prev_hash df.1) at h) in
      same

  -- Two chains of as many entries with the same end start at the same hash and cover the same
  -- bytes, or two entries at one place collide.
  chains_agree :
      (es fs : List SmacEntry) (p q h : Text)
      → IsDigest p
      → IsDigest q
      → length es ≡ length fs
      → IsChain sha256 p es h
      → IsChain sha256 q fs h
      → ((p ≡ q) × (map (covered sha256) es ≡ map (covered sha256) fs)) ⊎ SomeCollide sha256 es fs
  chains_agree [] [] p q h dp dq n ce cf = inl (ce ∙ sym cf, refl)
  chains_agree [] (f ∷ fs) p q h dp dq n ce cf = ground arith
  chains_agree (e ∷ es) [] p q h dp dq n ce cf = ground arith
  chains_agree (e ∷ es) (f ∷ fs) p q h dp dq n (ep, eh, ce) (fp, fh, cf) =
      let ih =
        chains_agree es fs e.hash f.hash h (rw eh (unfold compute_entry_hash in digests _))
          (rw fh (unfold compute_entry_hash in digests _)) (omega (arith, n)) ce cf in
      agree ih
    where
      agree :
          ((e.hash ≡ f.hash) × (map (covered sha256) es ≡ map (covered sha256) fs))
            ⊎ SomeCollide sha256 es fs
          → ((p ≡ q) × (map (covered sha256) (e ∷ es) ≡ map (covered sha256) (f ∷ fs)))
            ⊎ SomeCollide sha256 (e ∷ es) (f ∷ fs)
      agree (inr c) = inr (inr c)
      agree (inl (same_hash, same_rest)) =
          elim (Bool-cases (covered sha256 e == covered sha256 f)) [
            | inl same ↦
                let bytes = (==_iff (covered sha256 e) (covered sha256 f)).0 same in
                let prev = covered_prev e f (rw ep dp) (rw fp dq) bytes in
                inl (
                  sym ep ∙ prev ∙ fp,
                  ap (λ b. b ∷ map (covered sha256) es) bytes
                      ∙ ap (λ r. covered sha256 f ∷ r) same_rest,
                )
            | inr differ ↦ inr (
                inl (
                  (λ eq. ground (arith, (==_iff (covered sha256 e) (covered sha256 f)).1 eq)),
                  (unfold compute_entry_hash in sym eh ∙ same_hash ∙ fh),
                ))
          ]

  genesis-IsDigest : IsDigest genesis_hash
  genesis-IsDigest = (refl, ground arith)

  -- If digests are 64 characters of one byte, then two files that `verify_smac_log_chain` accepts
  -- with the same count and the same final hash have entries with the same covered bytes: those of
  -- the previous hash, followed by the joined bytes of index, tool and the two hashes; or at some
  -- place of the two files two entries cover different bytes that have one digest.
  pub same_hash_same_log :
      (parse : Text → Result SmacEntry Text) (ls ms : List Text) (n : ℕ) (h : Text)
      → verify_smac_log_chain sha256 parse ls ≡ ok (n, h)
      → verify_smac_log_chain sha256 parse ms ≡ ok (n, h)
      → (map (covered sha256) (entries sha256 parse ls)
          ≡ map (covered sha256) (entries sha256 parse ms))
        ⊎ SomeCollide sha256 (entries sha256 parse ls) (entries sha256 parse ms)
  same_hash_same_log parse ls ms n h vl vm =
      let (cl, nl) = verify-IsChain sha256 parse ls n h vl in
      let (cm, nm) = verify-IsChain sha256 parse ms n h vm in
      forget (
        chains_agree (entries sha256 parse ls) (entries sha256 parse ms) genesis_hash genesis_hash h
          genesis-IsDigest genesis-IsDigest (sym nl ∙ nm) cl cm)
    where
      forget :
          ((genesis_hash ≡ genesis_hash)
              × (map (covered sha256) (entries sha256 parse ls)
                  ≡ map (covered sha256) (entries sha256 parse ms)))
            ⊎ SomeCollide sha256 (entries sha256 parse ls) (entries sha256 parse ms)
          → (map (covered sha256) (entries sha256 parse ls)
              ≡ map (covered sha256) (entries sha256 parse ms))
            ⊎ SomeCollide sha256 (entries sha256 parse ls) (entries sha256 parse ms)
      forget (inl (_, same)) = inl same
      forget (inr c) = inr c
