-- ===== src/Server/Masking.antt =====
-- src/server.rs: `mask_secrets_with_names` and the redaction of a tool's result.
use intermcp.Prelude.{
  Text, Bool, ◌&&◌, ◌||◌, none, some, List, [], ◌∷◌, any, map, contains, ◌==◌, text_is_eq, len, leb,
  ltb, is_empty, if◌then◌else◌,
}
use intermcp.Protocol.Results.{ContentItem, text, image, resource, CallToolResult}
use intermcp.Server.State.{Host}

module _ (host : Host) where
  is_allowed_name : List Text → Text → Bool
  is_allowed_name names k =
      any
        (λ n.
          host.to_uppercase k == host.to_uppercase n
          || contains (host.to_uppercase k) (host.to_uppercase n))
        names

  -- The values of the environment that are masked.
  patterns : List Text → List (Text × Text) → List Text
  patterns names [] = []
  patterns names ((k, v) ∷ vars) =
      let rest = patterns names vars in
      if is_allowed_name names k && leb 8 (len v) then v ∷ rest else rest

-- `sort_by_key(|p| Reverse(p.len()))`, which is stable.
insert_longest : Text → List Text → List Text
insert_longest p [] = p ∷ []
insert_longest p (q ∷ qs) =
    let rest = insert_longest p qs in if ltb (len p) (len q) then q ∷ rest else p ∷ q ∷ qs

longest_first : List Text → List Text
longest_first [] = []
longest_first (p ∷ ps) = insert_longest p (longest_first ps)

module _ (host : Host) where
  replace_all : List Text → Text → Text
  replace_all [] t = t
  replace_all (p ∷ ps) t = elim (host.replacer (longest_first (p ∷ ps))) [
    | some replace ↦ replace t
    | none ↦ t
  ]

  unfoldable pub mask_secrets_with_names : Text → List Text → Text
  unfolding patterns is_allowed_name longest_first insert_longest replace_all
  mask_secrets_with_names t [] = t
  mask_secrets_with_names t (n ∷ names) = replace_all (patterns host (n ∷ names) host.vars) t

  redact_item : List Text → ContentItem → ContentItem
  unfolding mask_secrets_with_names
  redact_item names (text t) = text (mask_secrets_with_names t names)
  redact_item names (image bytes mime_type) =
      image (mask_secrets_with_names bytes names) (mask_secrets_with_names mime_type names)
  redact_item names (resource r) = resource (record r {
    text = mask_secrets_with_names r.text names;
    uri = mask_secrets_with_names r.uri names;
  })

  unfoldable pub redact_tool_result : List Text → CallToolResult → CallToolResult
  unfolding redact_item
  redact_tool_result names r =
      if is_empty names then r else record r { content = map (redact_item names) r.content }
