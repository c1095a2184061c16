-- ===== src/StoredConfig/Operations.antt =====
-- internal/configstate: how the service starts, and its other calls, which the console's API makes.
use Prim.Native.String.{◌++◌}
use elastic_fruit_runner.Base.{
  ℕ, true, String, Option, none, some, List, [], ◌∷◌, ◌==◌, ◌⊎◌, inl, inr, if◌then◌else◌, ◌||◌,
}
use elastic_fruit_runner.Storage.Revisions.{
  ConfigRevision, Revisions, list_recent_config_revisions, get_config_revision_yaml,
  get_last_active_config_yaml,
}
use elastic_fruit_runner.Config.{Config}
use elastic_fruit_runner.Config.Cloud.{ValidationIssue, problem, issue_string}
use elastic_fruit_runner.Config.Yaml.{ValidationResult, validate_yaml, rejected}
use elastic_fruit_runner.StoredConfig.{
  Snapshot, Service, Library, Faults, in_sync, refresh, safe_validation, save_revision, save,
  current_text,
}
use elastic_fruit_runner.StoredConfig.Texts.{redact_yaml, merge_masked_secrets}

-- The snapshot before the first refresh: Go's zero value.
abbrev no_snapshot : Snapshot
no_snapshot = record {
  path = "";
  active_hash = "";
  disk_hash = "";
  state = in_sync;
  disk_modified_at = none;
  active_loaded_at = 0;
  validation_errors = [];
  active_yaml = "";
  disk_yaml = "";
}

-- New, with the text that yaml.Marshal makes of a configuration that was not loaded from a file.
-- The error of saveRevision is ignored.
unfoldable pub new_service :
    Library → Faults → String → ℕ → ℕ → Config → Revisions → Option String → Service
new_service l fails marshalled loaded_at now c t disk =
    let text = (if c.loaded_yaml == "" then marshalled else c.loaded_yaml) in
    let active_hash =
      (if c.loaded_yaml == "" || c.loaded_hash == "" then l.hash text else c.loaded_hash) in
    let saved = save_revision l fails c.loaded_yaml "startup" true now t in
    refresh l (record {
      path = c.file_path;
      active_hash = active_hash;
      active_yaml = redact_yaml l.documents text;
      active_loaded_at = loaded_at;
      revisions = (if c.loaded_yaml == "" then t else saved.0);
      snapshot = no_snapshot;
      disk = disk;
    })

unfoldable pub new_for_config_mode : Library → String → ℕ → Revisions → Option String → Service
new_for_config_mode l path loaded_at t disk = refresh l (record {
  path = path;
  active_hash = "";
  active_yaml = "";
  active_loaded_at = loaded_at;
  revisions = t;
  snapshot = no_snapshot;
  disk = disk;
})

-- Service.Validate
unfoldable pub validate_draft : Library → String → Service → ValidationResult
validate_draft l draft s = elim (merge_masked_secrets l.documents draft (current_text s)) [
  | inl error ↦ rejected error
  | inr merged ↦ safe_validation l (validate_yaml l.platform l.yaml merged)
]

-- The configuration, or the issues; without issues there is one.
abbrev pub config_or_issues : ValidationResult → Option Config × List ValidationIssue
config_or_issues result = elim result.errors [
  | [] ↦ (result.config, [])
  | issue ∷ issues ↦ (none, issue ∷ issues)
]

unfoldable pub parse_with_secrets :
    Library → String → Service → Option Config × List ValidationIssue
parse_with_secrets l draft s = elim (merge_masked_secrets l.documents draft (current_text s)) [
  | inl error ↦ (none, problem "$" error)
  | inr merged ↦ config_or_issues (validate_yaml l.platform l.yaml merged)
]

-- Without the texts. `fails` is the error of the query.
unfoldable pub revisions_of : Option String → Service → String ⊎ List ConfigRevision
revisions_of (some error) s = inl ("list config revisions: " ++ error)
revisions_of none s = inr (list_recent_config_revisions s.revisions)

-- The error of a Save, or of the issues that it found.
abbrev pub restore_error : String → ValidationResult → Option String → Option String
restore_error revision result (some error) = some error
restore_error revision result none = elim result.errors [
  | [] ↦ none
  | issue ∷ issues ↦ some ("revision " ++ revision ++ " is not valid: " ++ issue_string issue)
]

-- Restore, with the id also as a text. `no_rows` is the error of a read that finds nothing.
unfoldable pub restore :
    Library → Faults → String → ℕ → String → ℕ → Service → Service × Option String
restore l fails no_rows id id_text now s = elim (get_config_revision_yaml id s.revisions) [
  | none ↦ (s, some ("read config revision " ++ id_text ++ ": " ++ no_rows))
  | some text ↦
      let (s', result, error) = save l fails text "restore" now s in
      (s', restore_error id_text result error)
]

-- LoadLastActive; `none` is an error.
unfoldable pub load_last_active : Revisions → Option String
load_last_active t = get_last_active_config_yaml t
