-- ===== src/StoredConfig/Secrets.antt =====
-- internal/configstate/service.go and storage.go: redactNode, which hides the tokens of a document
-- from the console, and mergeSecretNodes, which fills them in again from the file on disk.
pub mod Hidden
pub mod Restored
use elastic_fruit_runner.Base.{
  ℕ, ◌≡◌, refl, ap, Bool, true, false, ◌||◌, ◌&&◌, String, Option, none, some, ◌==◌, if◌then◌else◌,
}
use Prim.Native.Char.{code}
use Prim.Native.String
use elastic_fruit_runner.Base.{eqb}
use elastic_fruit_runner.Config.Node.{
  Kind, scalar_node, mapping_node, Node, node, Content, nil, cons, kind_of, value_of, is_mapping,
  same_kind,
}

-- The value in place of a token.
unfoldable pub masked : Node → Node
masked (node kind tag value rest content) = node scalar_node "!!str" "********" rest nil

unfoldable mutual
  pub redact_node : Node → Node
  redact_node (node kind tag value rest content) =
      if is_mapping kind
      then node kind tag value rest (redact_pairs content)
      else node kind tag value rest (redact_all content)

  -- The loop over the keys and values of a mapping.
  pub redact_pairs : Content → Content
  redact_pairs nil = nil
  redact_pairs (cons key nil) = cons key nil
  redact_pairs (cons key (cons value content)) = cons key (
      cons (if value_of key == "pat_token" then masked value else redact_node value)
        (redact_pairs content))

  pub redact_all : Content → Content
  redact_all nil = nil
  redact_all (cons child content) = cons (redact_node child) (redact_all content)

unfoldable mutual
  pub copy_node : Node → Node
  copy_node (node kind tag value rest content) = node kind tag value rest (copy_content content)

  pub copy_content : Content → Content
  copy_content nil = nil
  copy_content (cons child content) = cons (copy_node child) (copy_content content)

-- currentValues[key]: the value of the last pair with that key.
unfoldable pub current_value : String → Content → Option Node
current_value key nil = none
current_value key (cons k nil) = none
current_value key (cons k (cons value content)) =
    let rest = current_value key content in
    elim rest [ some later ↦ some later | none ↦ if value_of k == key then some value else none ]

-- strings.Trim(value, "*") == "", which the empty text satisfies
unfoldable pub is_mask : String → Bool
is_mask String.[] = true
is_mask (String.◌∷◌ c s) = eqb (code c) 42 && is_mask s

unfoldable mutual
  pub merge_secret_nodes : Node → Node → Node
  merge_secret_nodes (node kind tag value rest content) (node kind' tag' value' rest' content') =
      if same_kind kind kind'
      then node kind tag value rest
          (if is_mapping kind then merge_pairs content content' else merge_all content content')
      else node kind tag value rest content

  -- The pairs of the draft, against the content of the current mapping.
  pub merge_pairs : Content → Content → Content
  merge_pairs nil current = nil
  merge_pairs (cons key nil) current = cons key nil
  merge_pairs (cons key (cons value content)) current = cons key (
      cons
        (elim (current_value (value_of key) current) [
          | none ↦ value
          | some stored ↦
              if value_of key == "pat_token" && is_mask (value_of value)
              then copy_node stored
              else merge_secret_nodes value stored
        ])
        (merge_pairs content current))

  pub merge_all : Content → Content → Content
  merge_all nil current = nil
  merge_all (cons child content) nil = cons child content
  merge_all (cons child content) (cons stored current) =
      cons (merge_secret_nodes child stored) (merge_all content current)
