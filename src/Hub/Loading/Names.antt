-- ===== src/Hub/Loading/Names.antt =====
-- The names of the tools that src/hub.rs registers.
use intermcp.Hub.Loading.{
  err, FastMcpError, ok, Result, load_tools, load_tool, load_servers, load_server, load_listed,
  load_hub_tools_with_firewall, after_verify, admit_tool, Value, ℕ, UpstreamServer, ProxiedTool,
  Loaded, is_invalid_upstream, is_invalid_tool, register, and_then, finish,
}
use intermcp.Hub.Firewall.{
  PinnedToolContract, SupplyChainFirewall, member, contract_key, ToolDefinition,
}
use mathlib.Core.Path.{subst}
use intermcp.Prelude.{
  Option, none, some, Bool-cases, inl, inr, ◌==◌, ==_iff, text_is_eq, ◌≡◌, refl, ap, arith, Text,
  codes, false, List, [], ◌∷◌, ◌++◌, contains, starts_with, All, All-append, ◌||◌,
}

-- If neither upstream name has a double underscore and neither tool name starts with an underscore,
-- a prefixed name is formed in one way only.
pub contract_key_unique :
    (u v t s : Text)
    → contains u (codes "__") ≡ false
    → contains v (codes "__") ≡ false
    → starts_with t (codes "_") ≡ false
    → starts_with s (codes "_") ≡ false
    → contract_key u t ≡ contract_key v s
    → (u ≡ v) × (t ≡ s)
unfolding contains starts_with
contract_key_unique [] [] t s hu hv ht hs h = (refl, cc)
contract_key_unique [] (c ∷ []) t s hu hv ht hs h = ground arith
contract_key_unique [] (c ∷ d ∷ v) t s hu hv ht hs h = ground arith
contract_key_unique (c ∷ []) [] t s hu hv ht hs h = ground arith
contract_key_unique (c ∷ d ∷ u) [] t s hu hv ht hs h = ground arith
contract_key_unique (c ∷ u) (d ∷ v) t s hu hv ht hs h =
    let (us, ts) = contract_key_unique u v t s (ground arith) (ground arith) ht hs (cc) in
    (ground (arith, us), ts)

abbrev pub names : List ProxiedTool → List Text
names [] = []
names (p ∷ ps) = p.prefixed_name ∷ names ps

abbrev pub AreDistinct : List Text → Type 0
AreDistinct [] = Unit
AreDistinct (x ∷ xs) = (member x xs ≡ false) × AreDistinct xs

-- The tool stands under the name that is made of its upstream's and its own.
abbrev pub IsNamed : ProxiedTool → Type 0
IsNamed p =
    (contains p.upstream_name (codes "__") ≡ false)
    × (starts_with p.original_tool_name (codes "_") ≡ false)
    × (p.prefixed_name ≡ contract_key p.upstream_name p.original_tool_name)

member-snoc : (x y : Text) (xs : List Text) → member x (xs ++ y ∷ []) ≡ (member x xs || y == x)
member-snoc x y [] = ground arith
member-snoc x y (z ∷ xs) = ground (arith, member-snoc x y xs)

AreDistinct-snoc :
    (xs : List Text) (y : Text) → AreDistinct xs → member y xs ≡ false → AreDistinct (xs ++ y ∷ [])
AreDistinct-snoc [] y d new = (refl, tt)
AreDistinct-snoc (x ∷ xs) y (fresh, d) new = (
  ground (arith, member-snoc x y xs, ==_iff x y, ==_iff y x),
  AreDistinct-snoc xs y d (ground arith),
)

names-snoc :
    (ps : List ProxiedTool) (p : ProxiedTool)
    → names (ps ++ p ∷ []) ≡ names ps ++ p.prefixed_name ∷ []
names-snoc [] p = refl
names-snoc (q ∷ ps) p = ap (λ ns. q.prefixed_name ∷ ns) (names-snoc ps p)

-- The tools have distinct names, all of them registered, and made as they should be.
pub record IsSafe (l : Loaded) : Type 0 where
  pub distinct : AreDistinct (names l.all_tools)
  pub listed :
      (x : Text) → member x l.registered_names ≡ false → member x (names l.all_tools) ≡ false
  pub named : All IsNamed l.all_tools

register-IsSafe :
    (server : UpstreamServer) (tool : ToolDefinition) (l : Loaded)
    → is_invalid_upstream server.name ≡ false
    → is_invalid_tool tool.name ≡ false
    → member (contract_key server.name tool.name) l.registered_names ≡ false
    → IsSafe l
    → IsSafe (register server tool l)
unfolding register
register-IsSafe server tool l valid_server valid_tool new s =
    let key = contract_key server.name tool.name in
    record {
      distinct =
          rw names-snoc (AreDistinct-snoc (names l.all_tools) key s.distinct (s.listed key new));
      listed =
          λ x h. rw names-snoc (ground (arith, member-snoc x key (names l.all_tools), s.listed x));
      named = All-append IsNamed l.all_tools _ s.named ((ground arith, ground arith, refl), tt);
    }

-- The firewall plays no part in the names.
with_firewall-IsSafe :
    (fw : Option SupplyChainFirewall) (l : Loaded) → IsSafe l → IsSafe (record l { firewall = fw })
with_firewall-IsSafe fw l s = record { distinct = s.distinct; listed = s.listed; named = s.named }

and_then-IsSafe :
    (lr : Loaded × Result (Unit {0}) FastMcpError)
    (f : Loaded → Loaded × Result (Unit {0}) FastMcpError)
    → IsSafe lr.0
    → ((l : Loaded) → IsSafe l → IsSafe (f l).0)
    → IsSafe (and_then lr f).0
and_then-IsSafe (l, ok _) f s step = step l s
and_then-IsSafe (l, err e) f s step = s

finish-ok :
    (lr : Loaded × Result (Unit {0}) FastMcpError) (fw : Option SupplyChainFirewall)
    (tools : List ProxiedTool)
    → finish lr ≡ (fw, ok tools)
    → lr.0.all_tools ≡ tools
finish-ok (l, ok _) fw tools h = cc
finish-ok (l, err e) fw tools h = cc

module _ (sha256 : List ℕ → Text) (hash_canonical_json : Value → Option Text)
    (json_bytes : Value → List ℕ) where
  after_verify-IsSafe :
      (server : UpstreamServer) (tool : ToolDefinition) (l : Loaded)
      (r : SupplyChainFirewall × Result PinnedToolContract FastMcpError)
      → is_invalid_upstream server.name ≡ false
      → is_invalid_tool tool.name ≡ false
      → member (contract_key server.name tool.name) l.registered_names ≡ false
      → IsSafe l
      → IsSafe (after_verify sha256 hash_canonical_json json_bytes server tool l r).0
  unfolding after_verify
  after_verify-IsSafe server tool l (fw, ok c) vs vt new s =
      register-IsSafe server tool (record l { firewall = some fw }) vs vt new
        (with_firewall-IsSafe (some fw) l s)
  after_verify-IsSafe server tool l (fw, err e) vs vt new s = with_firewall-IsSafe (some fw) l s

  admit_tool-IsSafe :
      (server : UpstreamServer) (tool : ToolDefinition) (l : Loaded)
      (fw : Option SupplyChainFirewall)
      → is_invalid_upstream server.name ≡ false
      → is_invalid_tool tool.name ≡ false
      → member (contract_key server.name tool.name) l.registered_names ≡ false
      → IsSafe l
      → IsSafe (admit_tool sha256 hash_canonical_json json_bytes server tool l fw).0
  unfolding admit_tool
  admit_tool-IsSafe server tool l none vs vt new s = register-IsSafe server tool l vs vt new s
  admit_tool-IsSafe server tool l (some fw) vs vt new s =
      after_verify-IsSafe server tool l _ vs vt new s

  load_tool-IsSafe :
      (server : UpstreamServer) (tool : ToolDefinition) (l : Loaded)
      → is_invalid_upstream server.name ≡ false
      → IsSafe l
      → IsSafe (load_tool sha256 hash_canonical_json json_bytes server tool l).0
  unfolding load_tool
  load_tool-IsSafe server tool l vs s = elim (Bool-cases (is_invalid_tool tool.name)) [
    | inl bad ↦ rw bad s
    | inr good ↦
        elim (Bool-cases (member (contract_key server.name tool.name) l.registered_names)) [
          | inl twice ↦ rw (good, twice) s
          | inr new ↦ rw (good, new) (admit_tool-IsSafe server tool l l.firewall vs good new s)
        ]
  ]

  load_tools-IsSafe :
      (server : UpstreamServer) (tools : List ToolDefinition) (l : Loaded)
      → is_invalid_upstream server.name ≡ false
      → IsSafe l
      → IsSafe (load_tools sha256 hash_canonical_json json_bytes server tools l).0
  unfolding load_tools
  load_tools-IsSafe server [] l vs s = s
  load_tools-IsSafe server (tool ∷ tools) l vs s =
      and_then-IsSafe (load_tool sha256 hash_canonical_json json_bytes server tool l)
        (load_tools sha256 hash_canonical_json json_bytes server tools)
        (load_tool-IsSafe server tool l vs s) (λ l' s'. load_tools-IsSafe server tools l' vs s')

  load_listed-IsSafe :
      (server : UpstreamServer) (o : Option (List ToolDefinition)) (l : Loaded)
      → is_invalid_upstream server.name ≡ false
      → IsSafe l
      → IsSafe (load_listed sha256 hash_canonical_json json_bytes server o l).0
  unfolding load_listed
  load_listed-IsSafe server none l vs s = s
  load_listed-IsSafe server (some tools) l vs s = load_tools-IsSafe server tools l vs s

  load_server-IsSafe :
      (server : UpstreamServer) (l : Loaded)
      → IsSafe l
      → IsSafe (load_server sha256 hash_canonical_json json_bytes server l).0
  unfolding load_server
  load_server-IsSafe server l s = elim (Bool-cases (is_invalid_upstream server.name)) [
    | inl bad ↦ rw bad s
    | inr good ↦ rw good (load_listed-IsSafe server server.tools l good s)
  ]

  load_servers-IsSafe :
      (servers : List UpstreamServer) (l : Loaded)
      → IsSafe l
      → IsSafe (load_servers sha256 hash_canonical_json json_bytes servers l).0
  unfolding load_servers
  load_servers-IsSafe [] l s = s
  load_servers-IsSafe (server ∷ servers) l s =
      and_then-IsSafe (load_server sha256 hash_canonical_json json_bytes server l)
        (load_servers sha256 hash_canonical_json json_bytes servers) (load_server-IsSafe server l s)
        (λ l' s'. load_servers-IsSafe servers l' s')

  -- The tools that a load registers have distinct prefixed names, and each stands under the name
  -- that is made of an upstream's name without a double underscore and of a tool name that does not
  -- start with an underscore.
  pub load-IsNamed :
      (servers : List UpstreamServer) (fw fw' : Option SupplyChainFirewall)
      (tools : List ProxiedTool)
      → load_hub_tools_with_firewall sha256 hash_canonical_json json_bytes servers fw
        ≡ (fw', ok tools)
      → AreDistinct (names tools) × All IsNamed tools
  load-IsNamed servers fw fw' tools h =
      let start : Loaded = record { firewall = fw; registered_names = []; all_tools = [] } in
      let lr = load_servers sha256 hash_canonical_json json_bytes servers start in
      let safe =
        load_servers-IsSafe servers start
          (record { distinct = tt; listed = (λ x n. refl); named = tt }) in
      let same = finish-ok lr fw' tools (unfold load_hub_tools_with_firewall in h) in
      (subst (λ ps. AreDistinct (names ps)) same safe.distinct, subst (All IsNamed) same safe.named)
