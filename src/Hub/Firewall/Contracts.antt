-- ===== src/Hub/Firewall/Contracts.antt =====
-- The pinned contracts and the quarantine of the firewall of src/hub.rs, one check at a time.
use intermcp.Prelude.{
  ◌≡◌, refl, arith, Text, true, false, Option, none, some, List, ==_iff, ==_refl, text_is_eq,
  lookup, lookup-insert,
}
use intermcp.Error.{
  ok, err, FastMcpError, security_violation, execution_vetoed, contract_drift, description_drift,
  schema_drift, is_ok,
}
use intermcp.Hub.Firewall.{
  ToolDefinition, PinnedToolContract, SupplyChainFirewall, member, insert_member, is_quarantined,
  quarantine, persist_quarantine, differs, contract_key, drift, pin, check_hashes, veto,
}

member_self : (x : Text) (s : List Text) → member x (insert_member x s) ≡ true
member_self x s = ground (arith, ==_refl x)

member_stays :
    (x y : Text) (s : List Text) → member x s ≡ true → member x (insert_member y s) ≡ true
member_stays x y s h = ground (arith, ==_iff y x)

-- An expected hash that is given is the computed one.
abbrev pub Matches : Option Text → Text → Type 0
Matches none hash = Unit
Matches (some expected) hash = expected ≡ hash

pub expected-Matches : (o : Option Text) (hash : Text) → differs o hash ≡ false → Matches o hash
expected-Matches none hash h = tt
expected-Matches (some expected) hash h = ground (arith, ==_iff expected hash)

quarantine-quarantined :
    (u : Text) (fw : SupplyChainFirewall) → is_quarantined u (quarantine u fw) ≡ true
unfolding quarantine persist_quarantine is_quarantined
quarantine-quarantined u fw = member_self u fw.quarantined_upstreams

pub quarantine-stays :
    (u v : Text) (fw : SupplyChainFirewall)
    → is_quarantined u fw ≡ true
    → is_quarantined u (quarantine v fw) ≡ true
unfolding quarantine persist_quarantine is_quarantined
quarantine-stays u v fw h = member_stays u v fw.quarantined_upstreams h

drift_lem :
    (e : FastMcpError) (u : Text) (fw : SupplyChainFirewall)
    → is_quarantined u (drift e u fw).0 ≡ true
unfolding drift
drift_lem e u fw = quarantine-quarantined u fw

-- A contract that is pinned has the hashes of the tool.
pub pin-ok :
    (u : Text) (tool : ToolDefinition) (hs : Text × Text) (o : Option PinnedToolContract)
    (fw fw' : SupplyChainFirewall) (c : PinnedToolContract)
    → lookup (contract_key u tool.name) fw.pinned_contracts ≡ o
    → pin u tool hs o fw ≡ (fw', ok c)
    → (c.description_hash ≡ hs.0)
      × (c.schema_hash ≡ hs.1)
      × (lookup (contract_key u tool.name) fw'.pinned_contracts ≡ some c)
      × (fw'.quarantined_upstreams ≡ fw.quarantined_upstreams)
unfolding pin drift
pin-ok u tool hs (some existing) fw fw' c look h =
    let desc_same = ==_iff existing.description_hash hs.0 in
    let schema_same = ==_iff existing.schema_hash hs.1 in
    (
      ground (arith, desc_same, schema_same),
      ground (arith, desc_same, schema_same),
      ground (arith, desc_same, schema_same),
      ground (arith, desc_same, schema_same),
    )
pin-ok u tool hs none fw fw' c look h =
    let key = contract_key u tool.name in
    let contract : PinnedToolContract = record {
      upstream_name = u;
      tool_name = tool.name;
      description_hash = hs.0;
      schema_hash = hs.1;
    } in
    let found = lookup-insert key key contract fw.pinned_contracts in
    (cc, cc, ground (arith, found, ==_refl key), cc)

pin-refused :
    (u : Text) (tool : ToolDefinition) (hs : Text × Text) (o : Option PinnedToolContract)
    (fw : SupplyChainFirewall)
    → is_ok (pin u tool hs o fw).1 ≡ false
    → is_quarantined u (pin u tool hs o fw).0 ≡ true
unfolding pin
pin-refused u tool hs (some existing) fw h =
    ground (arith, drift_lem (security_violation (contract_drift u tool.name)) u fw)
pin-refused u tool hs none fw h = ground arith

-- The hashes of a definition differ from those of a contract.
abbrev pub Drifts : Text × Text → PinnedToolContract → Type 0
Drifts hs c = ¬ ((c.description_hash ≡ hs.0) × (c.schema_hash ≡ hs.1))

pin-stays :
    (u v : Text) (tool : ToolDefinition) (hs : Text × Text) (o : Option PinnedToolContract)
    (fw : SupplyChainFirewall)
    → is_quarantined u fw ≡ true
    → is_quarantined u (pin v tool hs o fw).0 ≡ true
unfolding pin drift
pin-stays u v tool hs (some existing) fw h = ground (arith, quarantine-stays u v fw)
pin-stays u v tool hs none fw h = (unfold is_quarantined in h)

pub check_hashes-ok :
    (u : Text) (tool : ToolDefinition) (ed es : Option Text) (hs : Text × Text)
    (fw fw' : SupplyChainFirewall) (c : PinnedToolContract)
    → check_hashes u tool ed es hs fw ≡ (fw', ok c)
    → (differs ed hs.0 ≡ false)
      × (differs es hs.1 ≡ false)
      × (pin u tool hs (lookup (contract_key u tool.name) fw.pinned_contracts) fw ≡ (fw', ok c))
unfolding check_hashes drift
check_hashes-ok u tool ed es hs fw fw' c h = (ground arith, ground arith, ground arith)

pub check_hashes-refused :
    (u : Text) (tool : ToolDefinition) (ed es : Option Text) (hs : Text × Text)
    (fw : SupplyChainFirewall)
    → is_ok (check_hashes u tool ed es hs fw).1 ≡ false
    → is_quarantined u (check_hashes u tool ed es hs fw).0 ≡ true
unfolding check_hashes
check_hashes-refused u tool ed es hs fw h =
    let found = lookup (contract_key u tool.name) fw.pinned_contracts in
    ground (
      arith,
      drift_lem (security_violation (description_drift u tool.name)) u fw,
      drift_lem (security_violation (schema_drift u tool.name)) u fw,
      pin-refused u tool hs found fw,
    )

pub check_hashes-stays :
    (u v : Text) (tool : ToolDefinition) (ed es : Option Text) (hs : Text × Text)
    (fw : SupplyChainFirewall)
    → is_quarantined u fw ≡ true
    → is_quarantined u (check_hashes v tool ed es hs fw).0 ≡ true
unfolding check_hashes drift
check_hashes-stays u v tool ed es hs fw h =
    let found = lookup (contract_key v tool.name) fw.pinned_contracts in
    ground (arith, quarantine-stays u v fw h, pin-stays u v tool hs found fw h)

pub vetoed :
    (u : Text) (fw : SupplyChainFirewall)
    → is_quarantined u fw ≡ true
    → veto u (some fw) ≡ err (security_violation (execution_vetoed u))
unfolding veto
vetoed u fw h = rw h refl

pin-drifted :
    (u : Text) (tool : ToolDefinition) (hs : Text × Text) (c : PinnedToolContract)
    (fw : SupplyChainFirewall)
    → Drifts hs c
    → is_ok (pin u tool hs (some c) fw).1 ≡ false
unfolding pin drift
pin-drifted u tool hs c fw d =
    ground (arith, ==_iff c.description_hash hs.0, ==_iff c.schema_hash hs.1)

pub check_hashes-drifted :
    (u : Text) (tool : ToolDefinition) (ed es : Option Text) (hs : Text × Text)
    (c : PinnedToolContract) (fw : SupplyChainFirewall)
    → lookup (contract_key u tool.name) fw.pinned_contracts ≡ some c
    → Drifts hs c
    → is_ok (check_hashes u tool ed es hs fw).1 ≡ false
unfolding check_hashes drift
check_hashes-drifted u tool ed es hs c fw look d =
    rw look (ground (arith, pin-drifted u tool hs c fw d))
