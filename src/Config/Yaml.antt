-- ===== src/Config/Yaml.antt =====
-- config/validation.go and config/load.go: ValidateConfig, which collects every problem of a
-- configuration, and the two ways by which a YAML text becomes a configuration: ValidateYAML and
-- Load. Decoding and encoding YAML, viper and sha256 are parameters.
use mathlib.Core.List.{◌++◌ as append}
use Prim.Native.String.{◌++◌}
use elastic_fruit_runner.Base.{
  String, Option, none, some, List, [], ◌∷◌, ◌==◌, ◌⊎◌, inl, inr, ℤ, pos, if◌then◌else◌,
}
use elastic_fruit_runner.Config.{
  Config, CloudConfig, CorsConfig, OrgConfig, RepoConfig, RunMode, standalone, cloud_mode, mode,
}
use elastic_fruit_runner.Config.Cloud.{Platform, ValidationIssue, problem, issue_string}
use elastic_fruit_runner.Config.Startup.{is_zero}
use elastic_fruit_runner.Config.Settings.{settings_issues}
use elastic_fruit_runner.Config.Targets.{orgs_issues, repos_issues}

pub record ValidationResult : Type 0 where
  pub config : Option Config
  pub errors : List ValidationIssue
  pub warnings : List ValidationIssue
  pub normalized : String

unfoldable pub mode_warnings : RunMode → List ValidationIssue
mode_warnings standalone = problem "$" "GitHub connectivity is not checked during config validation"
mode_warnings cloud_mode = []

-- The configuration, with the default groups filled in, and the result.
unfoldable pub validate_config : Platform → Config → Config × ValidationResult
validate_config p c =
    let (orgs', names, in_orgs) = orgs_issues p 0 [] c.orgs in
    let (names', in_repos) = repos_issues p 0 names c.repos in
    (
      record c { orgs = orgs' },
      record {
        config = none;
        errors = append (settings_issues p c) (append in_orgs in_repos);
        warnings = mode_warnings (mode c);
        normalized = "";
      },
    )

-- The fields of a YAML document, the duration parsed.
pub record RawConfig : Type 0 where
  pub orgs : List OrgConfig
  pub repos : List RepoConfig
  pub cloud : Option CloudConfig
  pub idle_timeout : ℤ
  pub log_level : String
  pub api_addr : String
  pub cors : CorsConfig
  pub db_path : String
  pub log_path : String

-- What a strict decoder answers for the first document of a text and for what follows it, and what
-- yaml.Marshal makes of a document. An error is its text.
pub data NextDocument : Type 0 where
  end_of_file another_document : NextDocument
  broken : String → NextDocument

pub record Yaml : Type 0 where
  pub decode : String → String ⊎ RawConfig
  pub next_document : String → NextDocument
  pub marshal : RawConfig → Option String

abbrev pub rejected : String → ValidationResult
rejected message = record {
  config = none;
  errors = problem "$" message;
  warnings = [];
  normalized = "";
}

-- The configuration of a document, with the defaults of the idle timeout and the log level.
unfoldable pub config_of : RawConfig → Config
config_of raw = record {
  orgs = raw.orgs;
  repos = raw.repos;
  cloud = raw.cloud;
  idle_timeout = if is_zero raw.idle_timeout then pos 900000000000 else raw.idle_timeout;
  log_level = if raw.log_level == "" then "info" else raw.log_level;
  api_addr = raw.api_addr;
  cors = raw.cors;
  db_path = raw.db_path;
  log_path = raw.log_path;
  file_path = "";
  loaded_hash = "";
  loaded_yaml = "";
}

unfoldable pub raw_of : Config → RawConfig
raw_of c = record {
  orgs = c.orgs;
  repos = c.repos;
  cloud = c.cloud;
  idle_timeout = c.idle_timeout;
  log_level = c.log_level;
  api_addr = c.api_addr;
  cors = c.cors;
  db_path = c.db_path;
  log_path = c.log_path;
}

-- result.Normalized, which stays empty where there are errors or the encoder fails.
unfoldable pub normalized_text : Yaml → Config → List ValidationIssue → String
normalized_text y c (issue ∷ issues) = ""
normalized_text y c [] = elim (y.marshal (raw_of c)) [ none ↦ "" | some text ↦ text ]

unfoldable pub validate_document : Platform → Yaml → RawConfig → ValidationResult
validate_document p y raw =
    let (c, result) = validate_config p (config_of raw) in
    record result { config = some c; normalized = normalized_text y c result.errors }

-- The result for what the decoder answers first and second.
unfoldable pub document_result :
    Platform → Yaml → String ⊎ RawConfig → NextDocument → ValidationResult
document_result p y (inl error) next = rejected error
document_result p y (inr raw) (broken error) = rejected error
document_result p y (inr raw) another_document = rejected "only one YAML document is allowed"
document_result p y (inr raw) end_of_file = validate_document p y raw

unfoldable pub validate_yaml : Platform → Yaml → String → ValidationResult
validate_yaml p y text = document_result p y (y.decode text) (y.next_document text)

-- What Load asks of viper, of the file system and of sha256.
pub record Loader : Type 0 where
  -- v.ReadInConfig: an error other than a file that was not found
  pub read_in_error : Option String
  pub bind_env_error : Option String
  -- v.Unmarshal
  pub unmarshal : String ⊎ Config
  -- v.ConfigFileUsed
  pub file_used : String
  -- filepath.Abs and os.ReadFile
  pub absolute : String → String ⊎ String
  pub read : String → String ⊎ String
  pub hash : String → String

-- What Load makes of the errors and the configuration that ValidateYAML answers. Without errors it
-- answers a configuration: the last clause stands for the crash that a nil pointer would be.
unfoldable pub loaded_config :
    Loader → String → Config → String → List ValidationIssue → Option Config → String ⊎ Config
loaded_config l path viper_config text (issue ∷ issues) c =
    inl ("validate config " ++ path ++ ": " ++ issue_string issue)
loaded_config l path viper_config text [] (some c) = inr (record c {
  log_level = viper_config.log_level;
  file_path = path;
  loaded_hash = l.hash text;
  loaded_yaml = text;
})
loaded_config l path viper_config text [] none =
    inl "invalid memory address or nil pointer dereference"

unfoldable pub load_text : Platform → Yaml → Loader → String → Config → String → String ⊎ Config
load_text p y l path viper_config text =
    let result = validate_yaml p y text in
    loaded_config l path viper_config text result.errors result.config

unfoldable pub load_file : Platform → Yaml → Loader → Config → String ⊎ Config
load_file p y l c =
    if l.file_used == "" then inr (record c { file_path = "" }) else elim (l.absolute l.file_used) [
      | inl error ↦ inl ("resolve config path " ++ l.file_used ++ ": " ++ error)
      | inr path ↦ elim (l.read path) [
        | inl error ↦ inl ("read loaded config " ++ path ++ ": " ++ error)
        | inr text ↦ load_text p y l path c text
      ]
    ]

unfoldable pub load : Platform → Yaml → Loader → String ⊎ Config
load p y l = elim l.read_in_error [
  | some error ↦ inl ("read config: " ++ error)
  | none ↦ elim l.bind_env_error [
    | some error ↦ inl ("bind env LOG_LEVEL: " ++ error)
    | none ↦ elim l.unmarshal [
      | inl error ↦ inl ("unmarshal config: " ++ error)
      | inr c ↦ load_file p y l c
    ]
  ]
]
