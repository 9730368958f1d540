-- ===== src/Recording/Mutations.antt =====
-- src/record.rs: the requests that a replay takes for mutating ones.
use intermcp.Recording.{
  is_mutating_request, is_mutating_tool, extract_tool_name, text_of, is_call, is_mutating_name,
  name_in,
}
use intermcp.Prelude.{
  ◌≡◌, ◌≢◌, ◌⊎◌, ◌↔◌, inl, inr, refl, sym, ap, ◌∙◌, arith, Text, codes, true, false, Option, none,
  some, [], ◌∷◌, ◌++◌, ◌==◌, ==_iff, text_is_eq, eqb_iff, starts_with, text_eq, to_ascii_lowercase,
  eq_ignore_ascii_case, Bool-cases,
}
use intermcp.Json.{Value, string, null, bool, number, array, object, get, as_str}

-- The tool runs a command or writes a file, in whatever case its name is written, or it is a tool of
-- git other than status, diff and log.
abbrev pub IsMutatingTool : Text → Type 0
IsMutatingTool name =
    (to_ascii_lowercase name ≡ codes "system_run_command")
    ⊎ (to_ascii_lowercase name ≡ codes "fs_write_file")
    ⊎ ((rest : Text) × (name ≡ codes "git_" ++ rest)
        × (rest ≢ codes "status")
        × (rest ≢ codes "diff")
        × (rest ≢ codes "log"))

-- The request is one call of such a tool.
abbrev pub Mutates : Value → Type 0
Mutates q =
    (params : Value) × (name : Text) × (get (codes "method") q ≡ some (string (codes "tools/call")))
    × (get (codes "params") q ≡ some params)
    × (get (codes "name") params ≡ some (string name))
    × IsMutatingTool name

git_tool-mutating :
    (rest : Text)
    → rest ≢ codes "status"
    → rest ≢ codes "diff"
    → rest ≢ codes "log"
    → is_mutating_tool (codes "git_" ++ rest) ≡ true
unfolding is_mutating_tool starts_with
git_tool-mutating rest no_status no_diff no_log = ground (
  arith,
  ==_iff (codes "git_" ++ rest) (codes "git_status"),
  ==_iff (codes "git_" ++ rest) (codes "git_diff"),
  ==_iff (codes "git_" ++ rest) (codes "git_log"),
)

same_name :
    (m name : Text)
    → (eq_ignore_ascii_case m name ≡ true) ↔ (to_ascii_lowercase name ≡ to_ascii_lowercase m)
unfolding eq_ignore_ascii_case
same_name m name =
    let iff = ==_iff (to_ascii_lowercase m) (to_ascii_lowercase name) in
    ((λ h. sym (iff.0 h)), (λ h. iff.1 (sym h)))

run_command-lower : to_ascii_lowercase (codes "system_run_command") ≡ codes "system_run_command"
unfolding to_ascii_lowercase
run_command-lower = refl

write_file-lower : to_ascii_lowercase (codes "fs_write_file") ≡ codes "fs_write_file"
unfolding to_ascii_lowercase
write_file-lower = refl

IsMutatingTool-found : (name : Text) → IsMutatingTool name → is_mutating_tool name ≡ true
IsMutatingTool-found name (inl run) =
    let same = (same_name (codes "system_run_command") name).1 (run ∙ sym run_command-lower) in
    (unfold is_mutating_tool in rw same refl)
IsMutatingTool-found name (inr (inl write)) =
    let same = (same_name (codes "fs_write_file") name).1 (write ∙ sym write_file-lower) in
    (unfold is_mutating_tool in ground (arith, same))
IsMutatingTool-found name (inr (inr (rest, e, no_status, no_diff, no_log))) =
    rw e (git_tool-mutating rest no_status no_diff no_log)

-- What a name that neither runs a command nor writes a file is found by.
git_parts :
    (name : Text)
    → eq_ignore_ascii_case (codes "system_run_command") name ≡ false
    → eq_ignore_ascii_case (codes "fs_write_file") name ≡ false
    → is_mutating_tool name ≡ true
    → (starts_with name (codes "git_") ≡ true)
      × ((name == codes "git_status") ≡ false)
      × ((name == codes "git_diff") ≡ false)
      × ((name == codes "git_log") ≡ false)
unfolding is_mutating_tool
git_parts name run write h = (ground arith, ground arith, ground arith, ground arith)

starts_with-prefix : (s pat : Text) → starts_with s pat ≡ true → (rest : Text) × (s ≡ pat ++ rest)
unfolding starts_with
starts_with-prefix s [] h = (s, refl)
starts_with-prefix [] (p ∷ pat) h = cc
starts_with-prefix (c ∷ s) (p ∷ pat) h =
    let (rest, e) = starts_with-prefix s pat (ground arith) in
    let same : c ≡ p = ground (arith, eqb_iff c p) in (rest, ground (arith, e, same))

differs-rest :
    (name rest given : Text) (name_eq : name ≡ codes "git_" ++ rest)
    → (name == codes "git_" ++ given) ≡ false
    → rest ≢ given
differs-rest name rest given e other same =
    ground (arith, (==_iff name (codes "git_" ++ given)).1 (e ∙ ap (λ r. codes "git_" ++ r) same))

found-IsMutatingTool : (name : Text) → is_mutating_tool name ≡ true → IsMutatingTool name
found-IsMutatingTool name h =
    let run = codes "system_run_command" in
    let write = codes "fs_write_file" in
    elim (Bool-cases (eq_ignore_ascii_case run name)) [
      | inl runs ↦ inl ((same_name run name).0 runs ∙ run_command-lower)
      | inr no_run ↦ elim (Bool-cases (eq_ignore_ascii_case write name)) [
        | inl writes ↦ inr (inl ((same_name write name).0 writes ∙ write_file-lower))
        | inr no_write ↦
            let (git, status, diff, log) = git_parts name no_run no_write h in
            let (rest, e) = starts_with-prefix name (codes "git_") git in
            inr (
              inr (
                rest,
                e,
                differs-rest name rest (codes "status") e status,
                differs-rest name rest (codes "diff") e diff,
                differs-rest name rest (codes "log") e log,
              ))
      ]
    ]

Mutates-found : (q : Value) → Mutates q → is_mutating_request q ≡ true
unfolding is_mutating_request extract_tool_name as_str text_eq eq_ignore_ascii_case
Mutates-found q (params, name, method, given, named, tool) =
    rw (method, given, named) (IsMutatingTool-found name tool)

as_str-some : (v : Value) (t : Text) → as_str v ≡ some t → v ≡ string t
unfolding as_str
as_str-some (string s) t h = cc
as_str-some null t h = cc
as_str-some (bool b) t h = cc
as_str-some (number n) t h = cc
as_str-some (array i) t h = cc
as_str-some (object f) t h = cc

text_of-some : (o : Option Value) (t : Text) → text_of o ≡ some t → o ≡ some (string t)
text_of-some none t h = cc
text_of-some (some v) t h = ap some (as_str-some v t h)

called : (o : Option Text) → is_call o ≡ true → o ≡ some (codes "tools/call")
called none h = cc
called (some m) h = ground (arith, ==_iff m (codes "tools/call"))

mutating_name :
    (o : Option Text)
    → is_mutating_name o ≡ true
    → (name : Text) × (o ≡ some name) × IsMutatingTool name
mutating_name none h = cc
mutating_name (some name) h = (name, refl, found-IsMutatingTool name h)

name_in-some :
    (o : Option Value) (name : Text)
    → name_in o ≡ some name
    → (params : Value) × (o ≡ some params) × (get (codes "name") params ≡ some (string name))
name_in-some none name h = cc
name_in-some (some params) name h = (params, refl, text_of-some (get (codes "name") params) name h)

found-parts :
    (q : Value)
    → is_mutating_request q ≡ true
    → (is_call (text_of (get (codes "method") q)) ≡ true)
      × (is_mutating_name (name_in (get (codes "params") q)) ≡ true)
unfolding is_mutating_request
found-parts q h = (ground arith, ground arith)

found-Mutates : (q : Value) → is_mutating_request q ≡ true → Mutates q
found-Mutates q h =
    let (call, tool) = found-parts q h in
    let method = text_of-some (get (codes "method") q) _ (called _ call) in
    let (name, e, mutating) = mutating_name _ tool in
    let (params, given, named) = name_in-some (get (codes "params") q) name e in
    (params, name, method, given, named, mutating)

-- The code finds exactly the calls of mutating tools.
pub is_mutating_request-Mutates_iff : (q : Value) → (is_mutating_request q ≡ true) ↔ Mutates q
is_mutating_request-Mutates_iff q = (found-Mutates q, Mutates-found q)
