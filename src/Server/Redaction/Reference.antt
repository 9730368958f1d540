-- ===== src/Server/Redaction/Reference.antt =====
-- src/server.rs: `redact_for_log` against a reference: every longest run of characters that lie in
-- some match becomes one "[REDACTED]", and all other characters stay.
use mathlib.Core.Path.{◌≡⟨◌⟩◌, ◌∎}
use intermcp.Prelude.{
  take, length-drop, ◌≡◌, refl, ap, sym, ◌∙◌, arith, ℕ, zero, suc, ◌+◌, ◌-◌, ◌≤◌, ◌<◌, Text, Bool,
  true, false, List, [], ◌∷◌, ◌++◌, drop, length, if◌then◌else◌, All,
}
use intermcp.Server.Redaction.Ranges.{IsSeparated, IsProper, is_covered}
use intermcp.Server.Redaction.{Range, redacted, build}

-- The reference: `inside` says that the character before was covered.
pub mask : (ℕ → Bool) → (inside : Bool) → ℕ → Text → Text
mask cov inside i [] = []
mask cov inside i (c ∷ s) = elim (cov i) [
  | true ↦ (let rest = mask cov true (suc i) s in if inside then rest else redacted ++ rest)
  | false ↦ c ∷ mask cov false (suc i) s
]

plus_zero : (i : ℕ) → i + 0 ≡ i
plus_zero i = omega arith

drop_nil : (n : ℕ) → drop {A = ℕ} n [] ≡ []
drop_nil zero = refl
drop_nil (suc n) = refl

drop-drop : (j k : ℕ) (s : Text) → drop j (drop k s) ≡ drop (k + j) s
drop-drop j zero s = ap (λ n. drop n s) (omega arith)
drop-drop j (suc k) [] = drop_nil j ∙ sym (drop_nil (suc k + j))
drop-drop j (suc k) (c ∷ s) =
    let e : suc (k + j) ≡ suc k + j = omega arith in drop-drop j k s ∙ ap (λ n. drop n (c ∷ s)) e

-- Nothing is covered before the first range.
uncovered :
    (lo j : ℕ) (rs : List Range)
    → IsSeparated lo rs
    → All (λ r. r.0 < r.1) rs
    → j < lo
    → is_covered rs j ≡ false
uncovered lo j [] s p h = refl
uncovered lo j (r ∷ rs) s p h =
    let rest = uncovered (suc r.1) j rs s.1 p.1 (omega (arith, s.0, p.0)) in
    rw rest (ground (arith, s.0))

widths_of : (n : ℕ) (rs : List Range) → All (IsProper n) rs → All (λ r. r.0 < r.1) rs
widths_of n [] p = tt
widths_of n (r ∷ rs) p = (p.0.0, widths_of n rs p.1)

lower : (lo lo' : ℕ) (rs : List Range) → lo' ≤ lo → IsSeparated lo rs → IsSeparated lo' rs
lower lo lo' [] h s = tt
lower lo lo' (r ∷ rs) h s = (omega (arith, s.0), s.1)

module _ (cov : ℕ → Bool) where
  mask-open :
      (inside : Bool) (i c : ℕ) (s : Text)
      → cov i ≡ false
      → mask cov inside i (c ∷ s) ≡ c ∷ mask cov false (suc i) s
  unfolding mask
  mask-open inside i c s h = ground arith

  mask-run : (i c : ℕ) (s : Text) → cov i ≡ true → mask cov true i (c ∷ s) ≡ mask cov true (suc i) s
  unfolding mask
  mask-run i c s h = ground arith

  mask-first :
      (i c : ℕ) (s : Text)
      → cov i ≡ true
      → mask cov false i (c ∷ s) ≡ redacted ++ mask cov true (suc i) s
  unfolding mask
  mask-first i c s h = ground arith

  mask-end : (inside : Bool) (i : ℕ) → mask cov inside i [] ≡ []
  unfolding mask
  mask-end inside i = refl

  -- Where nothing is covered, the text stays.
  gap :
      (k i : ℕ) (s : Text)
      → ((j : ℕ) → i ≤ j → j < i + k → cov j ≡ false)
      → k ≤ length s
      → mask cov false i s ≡ take k s ++ mask cov false (i + k) (drop k s)
  gap zero i s h l = rw (plus_zero i) refl
  gap (suc k) i [] h l = absurd (omega arith)
  gap (suc k) i (c ∷ s) h l =
      mask-open false i c s (h i (omega arith) (omega arith))
      ∙ ap (λ t. c ∷ t)
          (gap k (suc i) s (λ j a b. h j (omega arith) (omega arith)) (omega arith)
            ∙ ap (λ n. take k s ++ mask cov false n (drop k s)) (omega arith))

  -- Where all is covered, nothing is left.
  run :
      (k i : ℕ) (s : Text)
      → ((j : ℕ) → i ≤ j → j < i + k → cov j ≡ true)
      → mask cov true i s ≡ mask cov true (i + k) (drop k s)
  run zero i s h = rw (plus_zero i) refl
  run (suc k) i [] h = mask-end true i ∙ sym (mask-end true (i + suc k))
  run (suc k) i (c ∷ s) h =
      mask-run i c s (h i (omega arith) (omega arith))
      ∙ run k (suc i) s (λ j a b. h j (omega arith) (omega arith))
      ∙ ap (λ n. mask cov true n (drop k s)) (omega arith)

  -- A run begins.
  enter :
      (i : ℕ) (s : Text)
      → cov i ≡ true
      → 0 < length s
      → mask cov false i s ≡ redacted ++ mask cov true i s
  enter i [] h l = absurd (omega arith)
  enter i (c ∷ s) h l = mask-first i c s h ∙ ap (λ t. redacted ++ t) (sym (mask-run i c s h))

  -- A run ends.
  leave : (i : ℕ) (s : Text) → cov i ≡ false → mask cov true i s ≡ mask cov false i s
  leave i [] h = mask-end true i ∙ sym (mask-end false i)
  leave i (c ∷ s) h = mask-open true i c s h ∙ sym (mask-open false i c s h)

  all_open : (i : ℕ) (s : Text) → ((j : ℕ) → i ≤ j → cov j ≡ false) → mask cov false i s ≡ s
  all_open i [] h = mask-end false i
  all_open i (c ∷ s) h =
      mask-open false i c s (h i (omega arith))
      ∙ ap (λ t. c ∷ t) (all_open (suc i) s (λ j a. h j (omega arith)))

  -- The places of the first range, before it, in it and behind it.
  module _ (lo : ℕ) (r : Range) (rs : List Range)
      (known : (i : ℕ) → lo ≤ i → cov i ≡ is_covered (r ∷ rs) i) (from : lo ≤ r.0)
      (apart : IsSeparated (suc r.1) rs) (some_width : r.0 < r.1)
      (widths : All (λ q. q.0 < q.1) rs) where
    before_range : (j : ℕ) → lo ≤ j → j < r.0 → cov j ≡ false
    before_range j a b =
        known j a
        ∙ (let rest = uncovered (suc r.1) j rs apart widths (omega arith) in rw rest (ground arith))

    in_range : (j : ℕ) → r.0 ≤ j → j < r.1 → cov j ≡ true
    in_range j a b = known j (omega arith) ∙ ground arith

    at_end : cov r.1 ≡ false
    at_end =
        known r.1 (omega arith)
        ∙ (let rest = uncovered (suc r.1) r.1 rs apart widths (omega arith) in
            rw rest (ground arith))

    behind_range : (j : ℕ) → r.1 ≤ j → cov j ≡ is_covered rs j
    behind_range j a = known j (omega arith) ∙ ground arith

    -- One turn of the loop.
    turn_over :
        (s : Text)
        → r.0 < lo + length s
        → mask cov false lo s
          ≡ take (r.0 - lo) s ++ (redacted ++ mask cov false r.1 (drop (r.1 - lo) s))
    turn_over s short =
        let k = r.0 - lo in
        let m = r.1 - r.0 in
        let rest = drop k s in
        mask cov false lo s
        ≡⟨ gap k lo s (λ j a b. before_range j a (omega arith)) (omega arith) ⟩
          take k s ++ mask cov false (lo + k) rest
        ≡⟨ ap (λ n. take k s ++ mask cov false n rest) (omega arith) ⟩
          take k s ++ mask cov false r.0 rest
        ≡⟨ ap (λ t. take k s ++ t)
            (enter r.0 rest (in_range r.0 (omega arith) (omega arith))
              (omega (arith, length-drop {0} k s))) ⟩
          take k s ++ (redacted ++ mask cov true r.0 rest)
        ≡⟨ ap (λ t. take k s ++ (redacted ++ t))
            (run m r.0 rest (λ j a b. in_range j a (omega arith))) ⟩
          take k s ++ (redacted ++ mask cov true (r.0 + m) (drop m rest))
        ≡⟨ ap (λ n. take k s ++ (redacted ++ mask cov true n (drop m rest))) (omega arith) ⟩
          take k s ++ (redacted ++ mask cov true r.1 (drop m rest))
        ≡⟨ ap (λ t. take k s ++ (redacted ++ t)) (leave r.1 (drop m rest) at_end) ⟩
          take k s ++ (redacted ++ mask cov false r.1 (drop m rest))
        ≡⟨ ap (λ t. take k s ++ (redacted ++ mask cov false r.1 t))
            (drop-drop m k s ∙ ap (λ n. drop n s) (omega arith)) ⟩
          take k s ++ (redacted ++ mask cov false r.1 (drop (r.1 - lo) s)) ∎

  pub build-mask :
      (n lo : ℕ) (rs : List Range) (s : Text)
      → n ≤ lo + length s
      → IsSeparated lo rs
      → All (IsProper n) rs
      → ((i : ℕ) → lo ≤ i → cov i ≡ is_covered rs i)
      → build lo rs s ≡ mask cov false lo s
  unfolding build
  build-mask n lo [] s l sep p known = sym (all_open lo s known)
  build-mask n lo (r ∷ rs) s l sep p known =
      let w = widths_of n rs p.1 in
      ap (λ t. take (r.0 - lo) s ++ (redacted ++ t))
        (build-mask n r.1 rs (drop (r.1 - lo) s) (omega (arith, length-drop {0} (r.1 - lo) s))
          (lower (suc r.1) r.1 rs (omega arith) sep.1) p.1
          (behind_range lo r rs known sep.0 sep.1 p.0.0 w))
      ∙ sym (turn_over lo r rs known sep.0 sep.1 p.0.0 w s (omega (arith, p.0)))
