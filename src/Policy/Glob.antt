-- ===== src/Policy/Glob.antt =====
-- src/policy.rs: `glob_like_match`. A position in a value or a pattern is what is left of it. The
-- two loops run on fuel, which Policy/Glob/Fuel.antt shows to be enough.
pub mod Fuel
pub mod Matching
pub mod Inversion
pub mod Complete
use intermcp.Prelude.{
  ℕ, zero, suc, ◌+◌, ◌*◌, Text, codes, Bool, true, false, Option, none, some, List, [], ◌∷◌, ◌==◌,
  text_is_eq, eqb, ◌||◌, ◌&&◌, if◌then◌else◌, length, forward_slashes, to_ascii_lowercase, split,
  as_bytes,
}

-- `b'*'`, and what is left when only stars are.
abbrev pub star_byte : ℕ
star_byte = 42

unfoldable pub only_stars : List ℕ → Bool
only_stars [] = true
only_stars (c ∷ p) = eqb c star_byte && only_stars p

-- `star` and `mark`: the pattern behind the last star, and the value where its match ends.
abbrev pub Star : Type 0
Star = Option (List ℕ × List ℕ)

-- What a turn of the loop of `component_match` does.
pub data Turn : Type 0 where
  goes_on : (v p : List ℕ) → Star → Turn
  fails : Turn

-- The last two branches: back to the last star, or the end.
unfoldable pub retry : Star → Turn
retry (some (sp, (m ∷ mark))) = goes_on mark sp (some (sp, mark))
retry (some (sp, [])) = fails
retry none = fails

-- The branches of a turn at the byte `c` with `v` behind it.
unfoldable pub turn : ℕ → List ℕ → List ℕ → Star → Turn
unfolding retry
turn c v [] star = retry star
turn c v (d ∷ p) star =
    if eqb d c
    then goes_on v p star
    else if eqb d star_byte
    then goes_on (c ∷ v) p (some (p, c ∷ v))
    else retry star

unfoldable pub component_loop : ℕ → List ℕ → List ℕ → Star → Option Bool
unfolding turn only_stars
component_loop zero v p star = none
component_loop (suc fuel) [] p star = some (only_stars p)
component_loop (suc fuel) (c ∷ v) p star = elim (turn c v p star) [
  | goes_on v' p' star' ↦ component_loop fuel v' p' star'
  | fails ↦ some false
]

abbrev pub or_false : Option Bool → Bool
or_false none = false
or_false (some b) = b

abbrev pub component_fuel : List ℕ → List ℕ → ℕ
component_fuel v p = suc (length v * (length v + length p + 1) + length v + length p)

unfoldable pub component_match : List ℕ → List ℕ → Bool
unfolding component_loop
component_match v p = or_false (component_loop (component_fuel v p) v p none)

-- The patterns from the second on, or none: `patterns[pi] == "**"`.
unfoldable pub only_globstars : List Text → Bool
only_globstars [] = true
only_globstars (p ∷ ps) = p == codes "**" && only_globstars ps

-- What a turn of the loop over the components does.
pub data PathTurn : Type 0 where
  walks : (vs ps : List Text) → Option (List Text) → PathTurn
  ends : Bool → PathTurn

-- `globstar`: the patterns behind the last `**`.
unfoldable pub path_retry : List Text → Option (List Text) → PathTurn
path_retry vs (some gs) = walks vs gs (some gs)
path_retry vs none = ends false

-- A `**` matches the rest when nothing follows it.
unfoldable pub globstar_turn : List Text → List Text → PathTurn
globstar_turn vs [] = ends true
globstar_turn vs (p ∷ ps) = walks vs (p ∷ ps) (some (p ∷ ps))

unfoldable pub path_turn : Text → List Text → List Text → Option (List Text) → PathTurn
unfolding path_retry globstar_turn component_match
path_turn v vs [] globstar = path_retry vs globstar
path_turn v vs (p ∷ ps) globstar =
    if p == codes "**"
    then globstar_turn (v ∷ vs) ps
    else if component_match (as_bytes v) (as_bytes p)
    then walks vs ps globstar
    else path_retry vs globstar

unfoldable pub path_loop : ℕ → List Text → List Text → Option (List Text) → Option Bool
unfolding path_turn only_globstars
path_loop zero vs ps globstar = none
path_loop (suc fuel) [] ps globstar = some (only_globstars ps)
path_loop (suc fuel) (v ∷ vs) ps globstar = elim (path_turn v vs ps globstar) [
  | walks vs' ps' globstar' ↦ path_loop fuel vs' ps' globstar'
  | ends b ↦ some b
]

abbrev pub path_fuel : List Text → List Text → ℕ
path_fuel vs ps = suc (length vs * (length ps + 1) + length ps)

unfoldable pub glob_like_match : Text → Text → Bool
unfolding path_loop forward_slashes to_ascii_lowercase split
glob_like_match value pattern =
    let value' = forward_slashes (to_ascii_lowercase value) in
    let pattern' = forward_slashes (to_ascii_lowercase pattern) in
    let vs = split b'/' value' in
    let ps = split b'/' pattern' in
    if pattern' == codes "**" || pattern' == codes "*"
    then true
    else or_false (path_loop (path_fuel vs ps) vs ps none)
