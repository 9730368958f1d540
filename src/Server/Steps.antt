-- ===== src/Server/Steps.antt =====
-- Steps of a request of src/server.rs: a step changes a state and gives a result, or refuses, which
-- is the early return of an error result.
use intermcp.Prelude.{◌⊎◌, inl, inr, ◌≡◌, refl, true, false}
use intermcp.Error.{Result, ok, err, is_ok}
use intermcp.Server.State.{Refusal}

abbrev pub Step {ℓ} : Type 0 → Type ℓ → Type ℓ
Step S A = S → S × Result A Refusal

abbrev pub continue {ℓ κ} :
    {S : Type 0} {A : Type ℓ} {B : Type κ}
    → Result A Refusal
    → (A → Step S B)
    → S
    → S × Result B Refusal
continue (ok a) f s = f a s
continue (err r) f s = (s, err r)

infixl 5 ◌>>=◌ ◌>>◌
abbrev pub ◌>>=◌ {ℓ κ} :
    {S : Type 0} {A : Type ℓ} {B : Type κ} → Step S A → (A → Step S B) → Step S B
◌>>=◌ m f s = let (s', r) = m s in continue r f s'

abbrev pub ◌>>◌ {ℓ} : {S : Type 0} {B : Type ℓ} → Step S (Unit {0}) → Step S B → Step S B
m >> k = m >>= λ _. k

abbrev pub pass {ℓ} : {S : Type 0} {A : Type ℓ} → A → Step S A
pass a s = (s, ok a)

abbrev pub refuse {ℓ} : {S : Type 0} {A : Type ℓ} → Refusal → Step S A
refuse r s = (s, err r)

-- The error of a component as a refusal.
abbrev pub refused_as {ℓ κ} :
    {A : Type ℓ} {E : Type κ} → (E → Refusal) → Result A E → Result A Refusal
refused_as f (ok a) = ok a
refused_as f (err e) = err (f e)

abbrev pub lift {ℓ κ} :
    {S : Type 0} {A : Type ℓ} {E : Type κ} → (E → Refusal) → (S → S × Result A E) → Step S A
lift f m s = let (s', r) = m s in (s', refused_as f r)

module _ {ℓ κ} {S : Type 0} {A : Type ℓ} {B : Type κ} where
  -- A step that passes has passed its first part.
  pub bind-ok :
      (m : Step S A) (f : A → Step S B) (s s' : S) (b : B)
      → (m >>= f) s ≡ (s', ok b)
      → (s1 : S) × (a : A) × (m s ≡ (s1, ok a)) × (f a s1 ≡ (s', ok b))
  bind-ok m f s s' b h = go (m s) refl h
    where
      go :
          (r : S × Result A Refusal)
          → m s ≡ r
          → continue r.1 f r.0 ≡ (s', ok b)
          → (s1 : S) × (a : A) × (m s ≡ (s1, ok a)) × (f a s1 ≡ (s', ok b))
      go (s1, ok a) p q = (s1, a, p, q)
      go (s1, err e) p q = cc

  -- A chain ends at the refusal of its first part, or goes on behind it.
  pub bind-cases :
      (m : Step S A) (f : A → Step S B) (s : S)
      → ((e : Refusal) × ((m >>= f) s ≡ ((m s).0, err e))) ⊎ ((a : A) × ((m >>= f) s ≡ f a (m s).0))
  bind-cases m f s = go (m s).1
    where
      go :
          (r : Result A Refusal)
          → ((e : Refusal) × (continue r f (m s).0 ≡ ((m s).0, err e)))
            ⊎ ((a : A) × (continue r f (m s).0 ≡ f a (m s).0))
      go (ok a) = inr (a, refl)
      go (err e) = inl (e, refl)

module _ {ℓ} {S : Type 0} {B : Type ℓ} (m : Step S (Unit {0})) (k : Step S B) (s : S) where
  -- A chain goes on behind a first part that passes, and ends at one that does not.
  pub passed_on : is_ok (m s).1 ≡ true → (m >> k) s ≡ k (m s).0
  passed_on h = go (m s).1 h
    where
      go :
          (r : Result (Unit {0}) Refusal) → is_ok r ≡ true → continue r (λ _. k) (m s).0 ≡ k (m s).0
      go (ok u) h = refl
      go (err e) h = cc

  pub ended : is_ok (m s).1 ≡ false → (e : Refusal) × ((m >> k) s ≡ ((m s).0, err e))
  ended h = go (m s).1 h
    where
      go :
          (r : Result (Unit {0}) Refusal)
          → is_ok r ≡ false
          → (e : Refusal) × (continue r (λ _. k) (m s).0 ≡ ((m s).0, err e))
      go (ok u) h = cc
      go (err e) h = (e, refl)

module _ {ℓ κ} {S : Type 0} {A : Type ℓ} {E : Type κ} where
  pub lift-ok :
      (f : E → Refusal) (m : S → S × Result A E) (s s' : S) (a : A)
      → lift f m s ≡ (s', ok a)
      → m s ≡ (s', ok a)
  lift-ok f m s s' a h = go (m s) refl h
    where
      go :
          (r : S × Result A E)
          → m s ≡ r
          → ◌≡◌ {A = S × Result A Refusal} (r.0, refused_as f r.1) (s', ok a)
          → m s ≡ (s', ok a)
      go (s1, ok b) p q = cc
      go (s1, err e) p q = cc
