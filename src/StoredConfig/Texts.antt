-- ===== src/StoredConfig/Texts.antt =====
-- internal/configstate: redactYAML and mergeMaskedSecrets, on the text of a configuration. A text
-- that does not parse is redacted and merged line by line. Go's `[]byte` of a configuration is a
-- text.
use Prim.Native.String.{◌++◌}
use elastic_fruit_runner.Base.{
  Bool, ◌||◌, String, none, some, List, [], ◌∷◌, map, ◌==◌, ◌⊎◌, inl, inr, if◌then◌else◌,
}
use elastic_fruit_runner.Config.Text.{split, trim_space, cut, join_lines, all_chars, one_of}
use elastic_fruit_runner.Config.Node.{Node}
use elastic_fruit_runner.StoredConfig.Secrets.{redact_node, merge_secret_nodes}

-- yaml.Unmarshal into a node and yaml.Marshal of one; an error is its text.
pub record Documents : Type 0 where
  pub parse : String → String ⊎ Node
  pub encode : Node → String ⊎ String

abbrev pub secret_key : String
secret_key = "pat_token:"

unfoldable pub redact_line : String → String
redact_line line = elim (cut secret_key line) [
  | none ↦ line
  | some parts ↦ parts.0 ++ "pat_token: ********"
]

unfoldable pub redact_yaml : Documents → String → String
redact_yaml d text = elim (d.parse text) [
  | inl error ↦ join_lines (map redact_line (split 10 text))
  | inr document ↦ elim (d.encode (redact_node document)) [
    | inl error ↦ ""
    | inr redacted ↦ redacted
  ]
]

-- The values of the lines with a token, in order.
unfoldable pub line_secrets : List String → List String
line_secrets [] = []
line_secrets (line ∷ lines) =
    let rest = line_secrets lines in
    elim (cut secret_key line) [ none ↦ rest | some parts ↦ trim_space parts.1 ∷ rest ]

-- value == "" || strings.Trim(value, "*\"'") == "": nothing but asterisks and quotes
abbrev pub is_masked_value : String → Bool
is_masked_value value = value == "" || all_chars (one_of (42 ∷ 34 ∷ 39 ∷ [])) value

abbrev pub later : List String → List String
later [] = []
later (s ∷ secrets) = secrets

-- The loop over the draft's lines; the secrets that are left stand for `secretIndex`.
unfoldable pub fill_lines : List String → List String → List String
fill_lines secrets [] = []
fill_lines secrets (line ∷ lines) = elim (cut secret_key line) [
  | none ↦ line ∷ fill_lines secrets lines
  | some parts ↦ elim secrets [
    | [] ↦ line ∷ fill_lines [] lines
    | stored ∷ others ↦
        (if is_masked_value (trim_space parts.1) then parts.0 ++ "pat_token: " ++ stored else line)
        ∷ fill_lines others lines
  ]
]

unfoldable pub merge_masked_lines : String → String → String
merge_masked_lines draft current =
    join_lines (fill_lines (line_secrets (split 10 current)) (split 10 draft))

unfoldable pub merge_masked_secrets : Documents → String → String → String ⊎ String
merge_masked_secrets d draft current = elim (d.parse draft) [
  | inl error ↦ inl ("parse edited config: " ++ error)
  | inr draft_node ↦ if current == "" then inr draft else elim (d.parse current) [
    | inl error ↦ inr (merge_masked_lines draft current)
    | inr current_node ↦ elim (d.encode (merge_secret_nodes draft_node current_node)) [
      | inl error ↦ inl ("encode edited config: " ++ error)
      | inr result ↦ inr result
    ]
  ]
]
