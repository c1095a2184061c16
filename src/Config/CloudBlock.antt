-- ===== src/Config/CloudBlock.antt =====
-- config/cloud_yaml.go and config/load.go: WithCloudBlock, which sets the cloud block of a document,
-- and FindConfigPath. A mapping keeps its children as a list of keys and values in turn.
use Prim.Native.String.{◌++◌}
use elastic_fruit_runner.Base.{
  Bool, ◌||◌, not, String, Option, none, some, List, [], ◌∷◌, ◌==◌, ◌⊎◌, inl, inr, if◌then◌else◌,
}
use elastic_fruit_runner.Config.{default_data_dir}
use elastic_fruit_runner.Config.Text.{trim_space}
use elastic_fruit_runner.Config.Node.{
  Node, node, Content, nil, cons, unset, document_node, mapping_node, scalar_node, value_of,
}

-- The top level mapping of a document, or `none` if it is none. An empty document is first given an
-- empty mapping.
unfoldable pub document_mapping : Node → Option Node
document_mapping (node unset tag value rest content) = some (node mapping_node "!!map" "" "" nil)
document_mapping (node document_node tag value rest (cons (node mapping_node t v r c) nil)) =
    some (node mapping_node t v r c)
document_mapping document = none

-- The document with another mapping in its place.
abbrev pub with_mapping : Node → Node → Node
with_mapping (node kind tag value rest content) mapping =
    node document_node tag value rest (cons mapping nil)

-- The first of the keys `orgs` and `repos`.
unfoldable pub target_key : Content → Option String
target_key nil = none
target_key (cons key nil) = none
target_key (cons key (cons value content)) =
    if value_of key == "orgs" || value_of key == "repos"
    then some (value_of key)
    else target_key content

-- The first pair `cloud` takes the value; without one, a pair is added at the end.
unfoldable pub set_cloud : Node → Content → Content
set_cloud cloud nil = cons (node scalar_node "!!str" "cloud" "" nil) (cons cloud nil)
set_cloud cloud (cons key nil) =
    cons key (cons (node scalar_node "!!str" "cloud" "" nil) (cons cloud nil))
set_cloud cloud (cons key (cons value content)) =
    let rest = set_cloud cloud content in
    if value_of key == "cloud" then cons key (cons cloud content) else cons key (cons value rest)

abbrev pub set_cloud_in : Node → Node → Node
set_cloud_in cloud (node kind tag value rest content) =
    node kind tag value rest (set_cloud cloud content)

abbrev pub content_of_mapping : Node → Content
content_of_mapping (node kind tag value rest content) = content

-- yaml.Unmarshal into a node, Encode of the block, and yaml.Marshal; an error is its text. `blank`
-- is the zero node, into which nothing was parsed.
unfoldable pub with_cloud_block :
    (String → String ⊎ Node) → (Node → String ⊎ String) → String → String ⊎ Node → String ⊎ String
with_cloud_block parse marshal existing encoded =
    let parsed =
      (if trim_space existing == "" then inr (node unset "" "" "" nil) else parse existing) in
    elim parsed [
      | inl error ↦ inl ("parse existing config: " ++ error)
      | inr document ↦ elim (document_mapping document) [
        | none ↦ inl "existing config is not a YAML mapping"
        | some mapping ↦ elim (target_key (content_of_mapping mapping)) [
          | some key ↦ inl (
              "config still has a \"" ++ key
              ++ "\" block, cloud mode replaces orgs and repos, remove them first")
          | none ↦ elim encoded [
            | inl error ↦ inl ("encode cloud block: " ++ error)
            | inr cloud ↦ marshal (with_mapping document (set_cloud_in cloud mapping))
          ]
        ]
      ]
    ]

unfoldable pub first_existing : (String → Bool) → String → List String → String
first_existing exists default [] = default
first_existing exists default (path ∷ paths) =
    if exists path then path else first_existing exists default paths

-- `absolute` is filepath.Abs, `exists` whether os.Stat succeeds.
unfoldable pub find_config_path :
    (String → String)
    → Option String
    → (String → String → String)
    → (String → Bool)
    → String
    → String
find_config_path absolute home join exists config_path =
    if not (config_path == "") then absolute config_path else elim (default_data_dir home join) [
      | none ↦ "/etc/elastic-fruit-runner/config.yaml"
      | some data_dir ↦
          let first = join data_dir "config.yaml" in
          first_existing exists first (
            first ∷ "/opt/homebrew/var/elastic-fruit-runner/config.yaml"
            ∷ "/usr/local/var/elastic-fruit-runner/config.yaml"
            ∷ "/etc/elastic-fruit-runner/config.yaml" ∷ [])
    ]
