-- ===== src/Policy/Paths.antt =====
-- `std::path` on Unix, as far as src/policy.rs uses it: a path is its text, compared by components.
use intermcp.Prelude.{
  Text, codes, Bool, true, false, List, [], ◌∷◌, ◌++◌, ◌==◌, text_is_eq, ◌||◌, ◌&&◌, if◌then◌else◌,
  any, map, reverse, split, starts_with, is_empty,
}

pub data Component : Type 0 where
  root_dir cur_dir parent_dir : Component
  normal : Text → Component

abbrev pub component_eq : Component → Component → Bool
component_eq root_dir root_dir = true
component_eq cur_dir cur_dir = true
component_eq parent_dir parent_dir = true
component_eq (normal s) (normal t) = s == t
component_eq _ _ = false

-- The pieces between the separators: empty ones and `.` are dropped.
unfoldable pub piece_components : List Text → List Component
piece_components [] = []
piece_components (s ∷ ss) =
    let rest = piece_components ss in
    if is_empty s || s == codes "."
    then rest
    else (if s == codes ".." then parent_dir else normal s) ∷ rest

-- `Path::components`: a `.` at the very start is kept.
unfoldable pub first_components : Text → List Text → List Component
unfolding piece_components
first_components s [] = []
first_components s (p ∷ ps) =
    if starts_with s (codes "/")
    then root_dir ∷ piece_components (p ∷ ps)
    else if p == codes "."
    then cur_dir ∷ piece_components ps
    else piece_components (p ∷ ps)

unfoldable pub components : Text → List Component
unfolding first_components split starts_with
components s = first_components s (split b'/' s)

abbrev pub prefixes : List Component → List (List Component)
prefixes [] = [] ∷ []
prefixes (c ∷ cs) = [] ∷ map (λ p. c ∷ p) (prefixes cs)

-- `Path::ancestors`, the shortest first.
unfoldable pub ancestors : List Component → List (List Component)
ancestors (root_dir ∷ cs) = map (λ p. root_dir ∷ p) (prefixes cs)
ancestors cs = prefixes cs

abbrev pub same_path : List Component → List Component → Bool
same_path [] [] = true
same_path (a ∷ as') (b ∷ bs) = component_eq a b && same_path as' bs
same_path _ _ = false

-- `target.ancestors().any(|a| a == dir)`
unfoldable pub has_ancestor : Text → Text → Bool
unfolding ancestors components
has_ancestor target dir = any (λ a. same_path a (components dir)) (ancestors (components target))

-- `PathBuf::pop`, on the components from the last one: it stops at the root.
unfoldable pub pop : List Component → List Component
pop [] = []
pop (root_dir ∷ cs) = root_dir ∷ cs
pop (_ ∷ cs) = cs

-- The loop over the components that drops `.` and resolves `..` by the text alone.
unfoldable pub normalize : List Component → List Component → List Component
unfolding pop
normalize done [] = reverse done
normalize done (cur_dir ∷ cs) = normalize done cs
normalize done (parent_dir ∷ cs) = normalize (pop done) cs
normalize done (root_dir ∷ cs) = normalize (root_dir ∷ []) cs
normalize done (normal s ∷ cs) = normalize (normal s ∷ done) cs

abbrev pub component_text : Component → Text
component_text root_dir = []
component_text cur_dir = codes "."
component_text parent_dir = codes ".."
component_text (normal s) = s

abbrev pub join : List Component → Text
join [] = []
join (c ∷ []) = component_text c
join (c ∷ d ∷ cs) = component_text c ++ codes "/" ++ join (d ∷ cs)

-- The text of a path that is put together by `push`.
unfoldable pub path_text : List Component → Text
path_text (root_dir ∷ cs) = codes "/" ++ join cs
path_text cs = join cs
