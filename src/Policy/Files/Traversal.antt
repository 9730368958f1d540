-- ===== src/Policy/Files/Traversal.antt =====
-- Parent directories in the test for a directory of src/policy.rs, which reads the text of a path.
use intermcp.Prelude.{
  ℕ, ◌≡◌, refl, sym, ap, ◌∙◌, arith, Text, codes, Bool, true, false, Option, List, [], ◌∷◌, ◌++◌,
  ==_refl, text_is_eq, eqb, eqb_iff, any, map, split, starts_with, Bool-cases, inl, inr,
}
use intermcp.Policy.Paths.{
  Component, root_dir, cur_dir, parent_dir, normal, component_eq, piece_components,
  first_components, components, prefixes, ancestors, same_path, has_ancestor,
}
use intermcp.Policy.Files.{is_within_dir}

split_same : (sep c : ℕ) (s : Text) → eqb c sep ≡ true → split sep (c ∷ s) ≡ [] ∷ split sep s
unfolding split
split_same sep c s h = ground arith

split_other :
    (sep c : ℕ) (s p : Text) (ps : List Text)
    → eqb c sep ≡ false
    → split sep s ≡ p ∷ ps
    → split sep (c ∷ s) ≡ (c ∷ p) ∷ ps
unfolding split
split_other sep c s p ps other h = ground arith

split_some : (sep : ℕ) (s : Text) → (p : Text) × (ps : List Text) × (split sep s ≡ p ∷ ps)
split_some sep [] = ([], [], (unfold split in refl))
split_some sep (c ∷ s) =
    let (p, ps, h) = split_some sep s in
    elim (Bool-cases (eqb c sep)) [
      | inl same ↦ ([], split sep s, split_same sep c s same)
      | inr other ↦ (c ∷ p, ps, split_other sep c s p ps other h)
    ]

-- A text with a separator in it is split there.
split-append : (sep : ℕ) (s t : Text) → split sep (s ++ sep ∷ t) ≡ split sep s ++ split sep t
split-append sep [] t = split_same sep sep t ((eqb_iff sep sep).1 refl) ∙ (unfold split in refl)
split-append sep (c ∷ s) t =
    let (p, ps, h) = split_some sep s in
    let ih = split-append sep s t in
    elim (Bool-cases (eqb c sep)) [
      | inl same ↦
          split_same sep c (s ++ sep ∷ t) same
          ∙ ap (λ ps'. [] ∷ ps') ih
          ∙ ap (λ ps'. ps' ++ split sep t) (sym (split_same sep c s same))
      | inr other ↦
          split_other sep c (s ++ sep ∷ t) p (ps ++ split sep t) other
            (ih ∙ ap (λ ps'. ps' ++ split sep t) h)
          ∙ ap (λ ps'. ps' ++ split sep t) (sym (split_other sep c s p ps other h))
    ]

piece_components-append :
    (xs ys : List Text) → piece_components (xs ++ ys) ≡ piece_components xs ++ piece_components ys
unfolding piece_components
piece_components-append [] ys = refl
piece_components-append (x ∷ xs) ys = ground (arith, piece_components-append xs ys)

first_components-append :
    (s s' : Text) (p : Text) (ps qs : List Text)
    → starts_with s' (codes "/") ≡ starts_with s (codes "/")
    → first_components s' (p ∷ ps ++ qs) ≡ first_components s (p ∷ ps) ++ piece_components qs
unfolding first_components
first_components-append s s' p ps qs same =
    ground (arith, piece_components-append (p ∷ ps) qs, piece_components-append ps qs)

component_eq_refl : (c : Component) → component_eq c c ≡ true
component_eq_refl root_dir = refl
component_eq_refl cur_dir = refl
component_eq_refl parent_dir = refl
component_eq_refl (normal s) = ==_refl s

any-map :
    {A B : Type 0} (p : A → Bool) (q : B → Bool) (f : A → B) (xs : List A)
    → ((a : A) → p a ≡ true → q (f a) ≡ true)
    → any p xs ≡ true
    → any q (map f xs) ≡ true
any-map p q f [] step h = h
any-map p q f (x ∷ xs) step h = ground (arith, step x, any-map p q f xs step)

prefix_found : (cs ds : List Component) → any (λ a. same_path a cs) (prefixes (cs ++ ds)) ≡ true
prefix_found [] [] = refl
prefix_found [] (d ∷ ds) = refl
prefix_found (c ∷ cs) ds =
    any-map (λ a. same_path a cs) (λ a. same_path a (c ∷ cs)) (λ a. c ∷ a) (prefixes (cs ++ ds))
      (λ a h. rw (component_eq_refl c) h) (prefix_found cs ds)

pieces_not_root :
    (ps : List Text) → ancestors (piece_components ps) ≡ prefixes (piece_components ps)
unfolding ancestors piece_components
pieces_not_root [] = refl
pieces_not_root (p ∷ ps) = ground (arith, pieces_not_root ps)

ancestor_found :
    (cs : List Component) (ps : List Text)
    → any (λ a. same_path a cs) (ancestors (cs ++ piece_components ps)) ≡ true
ancestor_found [] ps = rw (pieces_not_root ps) (prefix_found [] (piece_components ps))
ancestor_found (root_dir ∷ cs) ps =
    (unfold ancestors in
      any-map (λ a. same_path a cs) (λ a. same_path a (root_dir ∷ cs)) (λ a. root_dir ∷ a)
        (prefixes (cs ++ piece_components ps)) (λ a h. h) (prefix_found cs (piece_components ps)))
ancestor_found (c ∷ cs) ps = (unfold ancestors in prefix_found (c ∷ cs) (piece_components ps))

starts_with-append :
    (c d : ℕ) (s t : Text) → starts_with (c ∷ (s ++ t)) (d ∷ []) ≡ starts_with (c ∷ s) (d ∷ [])
unfolding starts_with
starts_with-append c d [] [] = refl
starts_with-append c d [] (x ∷ t) = refl
starts_with-append c d (x ∷ s) t = refl

components-append :
    (d : ℕ) (dir rest : Text)
    → components (d ∷ (dir ++ b'/' ∷ rest))
      ≡ components (d ∷ dir) ++ piece_components (split b'/' rest)
unfolding components
components-append d dir rest =
    let (p, ps, h) = split_some b'/' (d ∷ dir) in
    let whole = d ∷ (dir ++ b'/' ∷ rest) in
    ap (first_components whole)
      (split-append b'/' (d ∷ dir) rest ∙ ap (λ l. l ++ split b'/' rest) h)
    ∙ first_components-append (d ∷ dir) whole p ps (split b'/' rest)
        (starts_with-append d b'/' dir (b'/' ∷ rest))
    ∙ ap (λ l. first_components (d ∷ dir) l ++ piece_components (split b'/' rest)) (sym h)

below_has_ancestor :
    (d : ℕ) (dir rest : Text) → has_ancestor (d ∷ (dir ++ b'/' ∷ rest)) (d ∷ dir) ≡ true
unfolding has_ancestor
below_has_ancestor d dir rest =
    rw (components-append d dir rest) (ancestor_found (components (d ∷ dir)) (split b'/' rest))

-- Whatever follows a directory and a slash, `..` included, and whatever the file system says, the
-- path counts as within the directory.
pub traversal_is_within :
    (to_lowercase : Text → Text) (canonicalize : Text → Option Text) (d : ℕ) (dir rest : Text)
    → is_within_dir to_lowercase canonicalize (d ∷ (dir ++ b'/' ∷ rest)) (d ∷ dir) ≡ true
traversal_is_within to_lowercase canonicalize d dir rest =
    (unfold is_within_dir in rw (below_has_ancestor d dir rest) refl)
