-- ===== src/Http/Dashboard.antt =====
-- src/http_server.rs: `html_escape`, through which every text of a tool or a call gets on the
-- dashboard.
use intermcp.Prelude.{
  ℕ, ◌≡◌, refl, arith, Text, codes, Bool, true, not, ◌&&◌, ◌||◌, [], ◌∷◌, ◌++◌, eqb, all,
  if◌then◌else◌,
}

-- What stands for a character.
pub escaped : ℕ → Text
escaped c =
    if eqb c b'&'
    then codes "&amp;"
    else if eqb c b'<'
    then codes "&lt;"
    else if eqb c b'>'
    then codes "&gt;"
    else if eqb c 34
    then codes "&quot;"
    else if eqb c 39
    then codes "&#39;"
    else if eqb c 96
    then codes "&#x60;"
    else if eqb c b'$'
    then codes "&#36;"
    else c ∷ []

pub html_escape : Text → Text
unfolding escaped
html_escape [] = []
html_escape (c ∷ s) = escaped c ++ html_escape s

-- A character that neither opens a tag nor ends an attribute.
abbrev pub is_inert : ℕ → Bool
is_inert c = not (eqb c b'<' || eqb c b'>' || eqb c 34 || eqb c 39 || eqb c 96 || eqb c b'$')

all-append : (p : ℕ → Bool) (xs ys : Text) → all p (xs ++ ys) ≡ (all p xs && all p ys)
all-append p [] ys = refl
all-append p (x ∷ xs) ys = ground (arith, all-append p xs ys)

escaped-inert : (c : ℕ) → all is_inert (escaped c) ≡ true
unfolding escaped
escaped-inert c = ground arith

-- An escaped text neither opens a tag nor ends an attribute.
pub html_escape-inert : (s : Text) → all is_inert (html_escape s) ≡ true
unfolding html_escape
html_escape-inert [] = refl
html_escape-inert (c ∷ s) =
    rw (all-append is_inert (escaped c), escaped-inert c) (html_escape-inert s)
