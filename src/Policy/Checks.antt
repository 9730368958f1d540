-- ===== src/Policy/Checks.antt =====
-- What a passed check of src/policy.rs has established, in each mode.
use intermcp.Prelude.{◌≡◌, refl, Bool, true, false, arith}
use intermcp.Error.{Result, ok, err}
use intermcp.Policy.Engine.{
  PolicyEngine, PolicyViolation, Check, violate_if, ◌>>=◌, continue, is_enforcing,
}

-- A passed chain has passed its first check.
module _ {ℓ κ} {A : Type ℓ} {B : Type κ} where
  pub bind-ok :
      (m : Check A) (f : A → Check B) (e e' : PolicyEngine) (b : B)
      → (m >>= f) e ≡ (e', ok b)
      → (e1 : PolicyEngine) × (a : A) × (m e ≡ (e1, ok a)) × (f a e1 ≡ (e', ok b))
  bind-ok m f e e' b h = go (m e) refl h
    where
      go :
          (r : PolicyEngine × Result A PolicyViolation)
          → m e ≡ r
          → continue r.1 f r.0 ≡ (e', ok b)
          → (e1 : PolicyEngine) × (a : A) × (m e ≡ (e1, ok a)) × (f a e1 ≡ (e', ok b))
      go (e1, ok a) p q = (e1, a, p, q)
      go (e1, err v) p q = cc

-- In enforcing mode a passed test has failed to find its violation, and has changed nothing.
pub violate_if-ok :
    (b : Bool) (v : PolicyViolation) (e e' : PolicyEngine)
    → is_enforcing e.policy.mode ≡ true
    → violate_if b v e ≡ (e', ok tt)
    → (b ≡ false) × (e' ≡ e)
unfolding violate_if
violate_if-ok b v e e' enf h = ground arith

-- In the other modes a test passes whatever it finds, and keeps the policy.
pub violate_if-lenient :
    (b : Bool) (v : PolicyViolation) (e : PolicyEngine)
    → is_enforcing e.policy.mode ≡ false
    → ((violate_if b v e).1 ≡ ok tt) × ((violate_if b v e).0.policy ≡ e.policy)
unfolding violate_if
violate_if-lenient b v e enf = (ground arith, ground arith)
