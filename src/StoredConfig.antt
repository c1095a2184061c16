-- ===== src/StoredConfig.antt =====
-- internal/configstate: the service that compares the running configuration with the file on disk,
-- saves an edited one, and keeps the revisions in the table config_revisions. The mutex covers one
-- assignment, so each call is one step. `disk` is the content of the file at the service's path.
pub mod Secrets
pub mod Texts
pub mod Operations
pub mod Saving
pub mod Trimming
mod Tests
use Prim.Native.String.{◌++◌}
use mathlib.Core.List.{◌++◌ as append}
use elastic_fruit_runner.Base.{
  ℕ, ◌+◌, Bool, true, false, not, String, Option, none, some, List, [], ◌∷◌, map, ◌==◌, ◌⊎◌, inl,
  inr, if◌then◌else◌, is_some,
}
use elastic_fruit_runner.Storage.Revisions.{
  ConfigRevision, Revisions, clear_active_config_revision, insert_config_revision,
  trim_config_revisions, list_recent_config_revisions, get_config_revision_yaml,
  get_last_active_config_yaml,
}
use elastic_fruit_runner.Config.{Config}
use elastic_fruit_runner.Config.Cloud.{Platform, ValidationIssue, problem, issue_string}
use elastic_fruit_runner.Config.Yaml.{Yaml, ValidationResult, validate_yaml}
use elastic_fruit_runner.StoredConfig.Texts.{Documents, redact_yaml, merge_masked_secrets}

pub data State : Type 0 where
  in_sync restart_required disk_invalid : State

pub record Snapshot : Type 0 where
  pub path : String
  pub active_hash : String
  pub disk_hash : String
  pub state : State
  pub disk_modified_at : Option ℕ
  pub active_loaded_at : ℕ
  pub validation_errors : List String
  pub active_yaml : String
  pub disk_yaml : String

pub record Service : Type 0 where
  pub path : String
  pub active_hash : String
  pub active_yaml : String
  pub active_loaded_at : ℕ
  pub revisions : Revisions
  pub snapshot : Snapshot
  pub disk : Option String

-- What the service calls: the validator with its platform, YAML documents, sha256 in hexadecimal,
-- the text of the error of os.ReadFile, and os.Stat's modification time.
pub record Library : Type 0 where
  pub platform : Platform
  pub yaml : Yaml
  pub documents : Documents
  pub hash : String → String
  pub read_error : String
  pub modified_at : Option ℕ

-- The calls that may fail.
pub data Call : Type 0 where
  makes_directory creates_temp permits_temp writes_temp syncs_temp closes_temp renames
        permits_file :
      Call
  begins clears_active inserts trims commits : Call

-- The text of the error of a call, if it fails.
abbrev pub Faults : Type 0
Faults = Call → Option String

-- The three cases of refresh: no path, a file that cannot be read, and a file.
unfoldable pub refreshed : Library → Service → Snapshot
refreshed l s =
    let next : Snapshot = record {
      path = s.path;
      active_hash = s.active_hash;
      disk_hash = "";
      state = in_sync;
      disk_modified_at = none;
      active_loaded_at = s.active_loaded_at;
      validation_errors = [];
      active_yaml = s.active_yaml;
      disk_yaml = "";
    } in
    if s.path == ""
    then record next { disk_hash = s.active_hash; disk_yaml = s.active_yaml }
    else elim s.disk [
      | none ↦ record next {
        state = disk_invalid;
        validation_errors = ("read config file " ++ s.path ++ ": " ++ l.read_error) ∷ [];
      }
      | some text ↦
          let read = record next {
            disk_hash = l.hash text;
            disk_yaml = redact_yaml l.documents text;
            disk_modified_at = l.modified_at;
          } in
          elim (validate_yaml l.platform l.yaml text).errors [
            | issue ∷ issues ↦ record read {
              state = disk_invalid;
              validation_errors = map issue_string (issue ∷ issues);
            }
            | [] ↦
                if l.hash text == s.active_hash
                then read
                else record read { state = restart_required }
          ]
    ]

unfoldable pub refresh : Library → Service → Service
refresh l s = record s { snapshot = refreshed l s }

-- safeValidation
unfoldable pub safe_validation : Library → ValidationResult → ValidationResult
safe_validation l result = record result {
  config = none;
  normalized =
      if result.normalized == ""
      then result.normalized
      else redact_yaml l.documents result.normalized;
}

-- The first call of a list that fails, with the context of its error.
unfoldable pub first_failure : Faults → List (Call × String) → Option String
first_failure fails [] = none
first_failure fails ((call, context) ∷ calls) = elim (fails call) [
  | some error ↦ some (context ++ ": " ++ error)
  | none ↦ first_failure fails calls
]

-- saveRevision: the statements of one transaction, which a failure rolls back.
unfoldable pub save_revision :
    Library → Faults → String → String → Bool → ℕ → Revisions → Revisions × Option String
save_revision l fails data_text source active now t =
    let cleared = (if active then clear_active_config_revision t else t) in
    let clears = (if active then ((clears_active, "clear active config revision") ∷ []) else []) in
    let calls =
      (begins, "start config revision save")
      ∷ append clears (
          (inserts, "insert config revision")
          ∷ (trims, "trim config revisions")
          ∷ (commits, "commit config revision")
          ∷ []) in
    elim (first_failure fails calls) [
      | some error ↦ (t, some error)
      | none ↦ (
        trim_config_revisions (
            insert_config_revision now source (l.hash data_text) data_text (if active then 1 else 0)
              cleared),
        none,
      )
    ]

-- The file that is read before a draft is merged: an error reads as an empty file.
abbrev pub current_text : Service → String
current_text s = elim s.disk [ none ↦ "" | some text ↦ text ]

-- The calls that write the temporary file, after MkdirAll, up to the rename.
abbrev pub write_calls : String → List (Call × String)
write_calls path =
    (creates_temp, "create temporary config")
    ∷ (permits_temp, "set temporary config permissions")
    ∷ (writes_temp, "write temporary config")
    ∷ (syncs_temp, "sync temporary config")
    ∷ (closes_temp, "close temporary config")
    ∷ (renames, "replace config file " ++ path)
    ∷ []

-- Save once the draft is merged and valid, and there is a path.
unfoldable pub store_text :
    Library
    → Faults
    → String
    → String
    → ℕ
    → ValidationResult
    → Service
    → Service × ValidationResult × Option String
store_text l fails merged source now result s =
    elim (first_failure fails ((makes_directory, "create config directory") ∷ [])) [
      | some error ↦ (s, safe_validation l result, some error)
      | none ↦ elim (first_failure fails (write_calls s.path)) [
        | some error ↦ (s, result, some error)
        | none ↦
            let replaced = record s { disk = some merged } in
            elim (first_failure fails
              ((permits_file, "set config file permissions " ++ s.path) ∷ [])) [
                | some error ↦ (replaced, result, some error)
                | none ↦
                    let (t, failed) = save_revision l fails merged source false now s.revisions in
                    elim failed [
                      | some error ↦ (replaced, result, some error)
                      | none ↦ (
                        refresh l (record replaced { revisions = t }),
                        safe_validation l result,
                        none,
                      )
                    ]
              ]
      ]
    ]

abbrev pub no_result : ValidationResult
no_result = record { config = none; errors = []; warnings = []; normalized = "" }

-- Save once the draft is merged.
unfoldable pub save_merged :
    Library → Faults → String → String → ℕ → Service → Service × ValidationResult × Option String
save_merged l fails merged source now s =
    let result = validate_yaml l.platform l.yaml merged in
    elim result.errors [
      | issue ∷ issues ↦ (s, safe_validation l result, none)
      | [] ↦
          if s.path == ""
          then (s, result, some "config file path is not set")
          else store_text l fails merged source now result s
    ]

unfoldable pub save :
    Library → Faults → String → String → ℕ → Service → Service × ValidationResult × Option String
save l fails draft source now s = elim (merge_masked_secrets l.documents draft (current_text s)) [
  | inl error ↦ (s, no_result, some error)
  | inr merged ↦ save_merged l fails merged source now s
]
