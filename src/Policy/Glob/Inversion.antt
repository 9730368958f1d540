-- ===== src/Policy/Glob/Inversion.antt =====
-- Matches of a value that has no star in it: how they begin, and what may follow a star
-- (src/policy.rs, `component_match`).
use intermcp.Prelude.{
  ℕ, ◌≤◌, ◌≡◌, refl, sym, ap, ◌∙◌, arith, false, List, [], ◌∷◌, ◌++◌, eqb, length, length-append,
  All,
}
use mathlib.Core.Path.{subst}
use mathlib.Core.List.{append_assoc, append-nil}
use intermcp.Policy.Glob.{star_byte}
use intermcp.Policy.Glob.Matching.{Matches, done, same, star_stops, star_takes}

-- Bytes without a star.
abbrev pub HasNoStar : List ℕ → Type 0
HasNoStar v = All (λ c. eqb c star_byte ≡ false) v

pub head_same : {c d : ℕ} {v p : List ℕ} → c ∷ v ≡ d ∷ p → (c ≡ d) × (v ≡ p)
head_same h = (ground arith, ground arith)

-- A byte of the pattern that is no star stands for itself.
pub byte_inv :
    {x y : List ℕ}
    → Matches x y
    → (d : ℕ) (p : List ℕ) → y ≡ d ∷ p
    → eqb d star_byte ≡ false
    → (v : List ℕ) × (x ≡ d ∷ v) × Matches v p
byte_inv done d p h plain = absurd (ground arith)
byte_inv (same c {v} {p = p'} m) d p h plain =
    let (cs, ps) = head_same h in (v, ap (λ z. z ∷ v) cs, subst (Matches v) ps m)
byte_inv (star_stops m) d p h plain = absurd (ground arith)
byte_inv (star_takes c m) d p h plain = absurd (ground arith)

star_inv :
    {x y : List ℕ}
    → Matches x y
    → (q : List ℕ) → y ≡ star_byte ∷ q
    → HasNoStar x
    → (a : List ℕ) × (b : List ℕ) × (x ≡ a ++ b) × Matches b q
star_inv done q h n = absurd (ground arith)
star_inv (same c {v} m) q h n = absurd (ground (arith, n.0))
star_inv (star_stops {v} m) q h n =
    let (_, ps) = head_same h in ([], v, refl, subst (Matches v) ps m)
star_inv (star_takes c {v} m) q h n =
    let (a, b, split, m') = star_inv m q h n.1 in (c ∷ a, b, ap (λ z. c ∷ z) split, m')

-- A pattern that begins with plain bytes.
plain_inv :
    (w b r : List ℕ)
    → HasNoStar w
    → Matches b (w ++ r)
    → (b' : List ℕ) × (b ≡ w ++ b') × Matches b' r
plain_inv [] b r n m = (b, refl, m)
plain_inv (x ∷ w) b r n m =
    let (v, head, m1) = byte_inv m x (w ++ r) refl n.0 in
    let (b', rest, m2) = plain_inv w v r n.1 m1 in (b', head ∙ ap (λ z. x ∷ z) rest, m2)

append_same : (w y z : List ℕ) → w ++ y ≡ w ++ z → y ≡ z
append_same [] y z h = h
append_same (x ∷ w) y z h = append_same w y z (head_same h).1

pub strip : (w v p : List ℕ) → HasNoStar w → Matches (w ++ v) (w ++ p) → Matches v p
strip w v p n m =
    let (b', h, m') = plain_inv w (w ++ v) p n m in
    subst (λ z. Matches z p) (sym (append_same w v b' h)) m'

suffix_of : (w y u b : List ℕ) → w ++ y ≡ u ++ b → length w ≤ length u → (e : List ℕ) × (y ≡ e ++ b)
suffix_of [] y u b h le = (u, h)
suffix_of (x ∷ w) y [] b h le = absurd (omega (arith, le))
suffix_of (x ∷ w) y (z ∷ u) b h le = suffix_of w y u b (head_same h).1 (omega (arith, le))

takes_all : (e b p : List ℕ) → Matches b (star_byte ∷ p) → Matches (e ++ b) (star_byte ∷ p)
takes_all [] b p m = m
takes_all (c ∷ e) b p m = star_takes c (takes_all e b p m)

pub HasNoStar-left : (w y : List ℕ) → HasNoStar (w ++ y) → HasNoStar w
HasNoStar-left [] y n = tt
HasNoStar-left (x ∷ w) y n = (n.0, HasNoStar-left w y n.1)

pub HasNoStar-right : (w y : List ℕ) → HasNoStar (w ++ y) → HasNoStar y
HasNoStar-right [] y n = n
HasNoStar-right (x ∷ w) y n = HasNoStar-right w y n.1

-- What follows a star may be found as late as after the plain bytes.
pub star_later :
    (w y p : List ℕ)
    → HasNoStar (w ++ y)
    → Matches (w ++ y) (star_byte ∷ (w ++ star_byte ∷ p))
    → Matches y (star_byte ∷ p)
star_later w y p n m =
    let (a, b, split, m1) = star_inv m (w ++ star_byte ∷ p) refl n in
    let (b', rest, m2) = plain_inv w b (star_byte ∷ p) (HasNoStar-left w y n) m1 in
    let whole : w ++ y ≡ (a ++ w) ++ b' =
      split ∙ ap (λ z. a ++ z) rest ∙ sym (append_assoc a w b') in
    let (e, found) = suffix_of w y (a ++ w) b' whole (omega (arith, length-append a w)) in
    subst (λ z. Matches z (star_byte ∷ p)) (sym found) (takes_all e b' p m2)

nothing_left : (e b : List ℕ) → e ++ b ≡ [] → b ≡ []
nothing_left [] b h = h
nothing_left (c ∷ e) b h = absurd (ground arith)

pub star_at_end : (w p : List ℕ) → HasNoStar w → Matches w (star_byte ∷ (w ++ p)) → Matches [] p
star_at_end w p n m =
    let (a, b, split, m1) = star_inv m (w ++ p) refl n in
    let (b', rest, m2) = plain_inv w b p n m1 in
    let whole : w ++ [] ≡ (a ++ w) ++ b' =
      append-nil w ∙ split ∙ ap (λ z. a ++ z) rest ∙ sym (append_assoc a w b') in
    let (e, found) = suffix_of w [] (a ++ w) b' whole (omega (arith, length-append a w)) in
    subst (λ z. Matches z p) (nothing_left e b' (sym found)) m2
