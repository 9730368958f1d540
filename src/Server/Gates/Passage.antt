-- ===== src/Server/Gates/Passage.antt =====
-- src/server.rs: calls of "tools/call" that have passed all gates.
use intermcp.Prelude.{
  refl, text_is_eq, inl, inr, ◌≡◌, sym, ap, ◌∙◌, arith, Text, true, none, some, ◌⊎◌, lookup,
}
use intermcp.Server.State.{Outcome, with_outcome, Server, Host, Surroundings, Refusal}
use intermcp.Server.Gates.{
  gates, policy_gate, policy_with, check_policy, guardrail_gate, guardrail_with, taint_gate,
  taint_with, vault_gate, vault_with, held, answered, is_sink, arguments_hash,
}
use intermcp.Vault.{waiting, saturated, failed, request, Request, TimeLockedVault, is_protected}
use intermcp.Vault.Lifecycle.{request-protected, sent-request, settle-has_approval, has_approval}
use intermcp.Receipts.{hash_canonical_json}
use intermcp.Error.{FastMcpError, Result, ok}
use intermcp.Json.{Value}
use intermcp.Policy.Engine.{PolicyEngine}
use intermcp.Taint.{TaintTracker, scan_json_arguments, privileged_execution}
use intermcp.Server.Steps.{◌>>◌, bind-ok}

module _ (host : Host) where
  module _ (around : Surroundings) (name : Text) (arguments : Value) where
    -- The parts of the server that a gate leaves for the gates behind it.
    policy-kept :
        (s s' : Server) (r : Result (Unit {0}) Refusal)
        → policy_gate host around name arguments s ≡ (s', r)
        → (s'.taint_tracker ≡ s.taint_tracker) × (s'.vault_lock ≡ s.vault_lock)
    unfolding policy_gate policy_with
    policy-kept s s' r h = (ground arith, ground arith)

    guardrail-kept :
        (s s' : Server) (r : Result (Unit {0}) Refusal)
        → guardrail_gate host around name arguments s ≡ (s', r)
        → (s'.taint_tracker ≡ s.taint_tracker) × (s'.vault_lock ≡ s.vault_lock)
    unfolding guardrail_gate guardrail_with
    guardrail-kept s s' r h = (ground arith, ground arith)

    taint-kept :
        (s s' : Server) (r : Result (Unit {0}) Refusal)
        → taint_gate host around name arguments s ≡ (s', r)
        → s'.vault_lock ≡ s.vault_lock
    unfolding taint_gate taint_with
    taint-kept s s' r h = ground arith

    -- The gates one by one, each with the part of the server that it read.
    pub record Passed (s s' : Server) : Type 0 where
      pub s1 : Server
      pub s2 : Server
      pub s3 : Server
      pub by_policy : policy_gate host around name arguments s ≡ (s1, ok tt)
      pub by_guardrail : guardrail_gate host around name arguments s1 ≡ (s2, ok tt)
      pub by_taint : taint_gate host around name arguments s2 ≡ (s3, ok tt)
      pub by_vault : vault_gate host around name arguments s3 ≡ (s', ok tt)
      pub same_tracker : s2.taint_tracker ≡ s.taint_tracker
      pub same_vault : s3.vault_lock ≡ s.vault_lock

    pub gates-Passed :
        (s s' : Server) → gates host around name arguments s ≡ (s', ok tt) → Passed s s'
    unfolding gates
    gates-Passed s s' h =
        let p = policy_gate host around name arguments in
        let g = guardrail_gate host around name arguments in
        let t = taint_gate host around name arguments in
        let v = vault_gate host around name arguments in
        let (s1, u1, h1, r1) = bind-ok p (λ _. g >> (t >> v)) s s' tt h in
        let (s2, u2, h2, r2) = bind-ok g (λ _. t >> v) s1 s' tt r1 in
        let (s3, u3, h3, r3) = bind-ok t (λ _. v) s2 s' tt r2 in
        let (tracker1, vault1) = policy-kept s s1 (ok tt) h1 in
        let (tracker2, vault2) = guardrail-kept s1 s2 (ok tt) h2 in
        let vault3 = taint-kept s2 s3 (ok tt) h3 in
        record {
          s1 = s1;
          s2 = s2;
          s3 = s3;
          by_policy = h1;
          by_guardrail = h2;
          by_taint = h3;
          by_vault = r3;
          same_tracker = tracker2 ∙ tracker1;
          same_vault = vault3 ∙ (vault2 ∙ vault1);
        }

    policy_with-ok :
        (e : PolicyEngine) (s s' : Server)
        → policy_with host around name arguments (some e) s ≡ (s', ok tt)
        → (e' : PolicyEngine) × (check_policy host around.policy_time name arguments e
            ≡ (e', ok tt))
    unfolding policy_with
    policy_with-ok e s s' h =
        ((check_policy host around.policy_time name arguments e).0, ground arith)

    pub policy_gate-ok :
        (e : PolicyEngine) (s s' : Server)
        → s.policy_engine ≡ some e
        → policy_gate host around name arguments s ≡ (s', ok tt)
        → (e' : PolicyEngine) × (check_policy host around.policy_time name arguments e
            ≡ (e', ok tt))
    unfolding policy_gate
    policy_gate-ok e s s' has h =
        policy_with-ok e s s' (sym (ap (λ o. policy_with host around name arguments o s) has) ∙ h)

    taint_with-ok :
        (t : TaintTracker) (s s' : Server)
        → is_sink name ≡ true
        → taint_with host around name arguments (some t) s ≡ (s', ok tt)
        → (scan_json_arguments arguments privileged_execution t).1 ≡ ok tt
    unfolding taint_with
    taint_with-ok t s s' sink h = ground arith

    -- The gate of a sink has scanned its arguments.
    pub taint_gate-ok :
        (t : TaintTracker) (s s' : Server)
        → s.taint_tracker ≡ some t
        → is_sink name ≡ true
        → taint_gate host around name arguments s ≡ (s', ok tt)
        → (scan_json_arguments arguments privileged_execution t).1 ≡ ok tt
    unfolding taint_gate
    taint_gate-ok t s s' has sink h =
        taint_with-ok t s s' sink
          (sym (ap (λ o. taint_with host around name arguments o s) has) ∙ h)

    answered-ok :
        (id : Text) (v : TimeLockedVault) (s s' : Server)
        → lookup id v.sent ≡ none
        → answered host around name arguments id v s ≡ (s', ok tt)
        → has_approval id around.vault_events ≡ true
    unfolding answered
    answered-ok id v s s' fresh h =
        settle-has_approval id around.vault_events v fresh (ground arith)

    abbrev requested : Result Text FastMcpError → TimeLockedVault → TimeLockedVault × Request
    requested hash v = request around.vault_time around.approval_id name arguments hash v

    held-ok :
        (q : Request) (v : TimeLockedVault) (s s' : Server)
        → (q ≡ waiting around.approval_id) ⊎ (q ≡ saturated) ⊎ ((e : FastMcpError) × (q ≡ failed e))
        → lookup around.approval_id v.sent ≡ none
        → held host around name arguments q v s ≡ (s', ok tt)
        → has_approval around.approval_id around.vault_events ≡ true
    unfolding held
    held-ok q v s s' (inl e) fresh h = answered-ok around.approval_id v s s' fresh (rw e at h)
    held-ok q v s s' (inr (inl e)) fresh h = absurd (ground arith)
    held-ok q v s s' (inr (inr (f, e))) fresh h = absurd (ground arith)

    vault_with-ok :
        (v : TimeLockedVault) (s s' : Server)
        → is_protected name v ≡ true
        → lookup around.approval_id v.sent ≡ none
        → vault_with host around name arguments (some v) s ≡ (s', ok tt)
        → has_approval around.approval_id around.vault_events ≡ true
    unfolding vault_with
    vault_with-ok v s s' protected fresh h =
        let hash = hash_canonical_json host.sha256 host.hex host.canonicalize_json arguments in
        held-ok (requested hash v).1 (requested hash v).0 s s'
          (request-protected around.vault_time around.approval_id name arguments hash v protected)
          (ap (lookup around.approval_id)
              (sent-request around.vault_time around.approval_id name arguments hash v)
            ∙ fresh)
          h

    -- A call of a protected tool has been approved under its own identifier.
    pub vault_gate-ok :
        (v : TimeLockedVault) (s s' : Server)
        → s.vault_lock ≡ some v
        → is_protected name v ≡ true
        → lookup around.approval_id v.sent ≡ none
        → vault_gate host around name arguments s ≡ (s', ok tt)
        → has_approval around.approval_id around.vault_events ≡ true
    unfolding vault_gate
    vault_gate-ok v s s' has protected fresh h =
        vault_with-ok v s s' protected fresh
          (sym (ap (λ o. vault_with host around name arguments o s) has) ∙ h)

    -- The gates do not know what the tool will give.
    pub gates-outcome :
        (o : Outcome) (s : Server)
        → gates host (with_outcome o around) name arguments s ≡ gates host around name arguments s
    unfolding gates policy_gate policy_with guardrail_gate guardrail_with taint_gate taint_with
        vault_gate vault_with held answered arguments_hash
    gates-outcome o s = refl
