-- ===== src/Config/Settings.antt =====
-- config/validation.go: what ValidateConfig checks of the fields beside the orgs and repos.
use mathlib.Core.List.{◌++◌ as append}
use Prim.Native.String.{◌++◌}
use elastic_fruit_runner.Base.{
  Bool, true, false, String, none, some, List, [], ◌∷◌, ◌==◌, not, ◌&&◌, ◌||◌, is_some,
  if◌then◌else◌,
}
use elastic_fruit_runner.Config.{Config, CorsConfig, parsed_log_level}
use elastic_fruit_runner.Config.Text.{contains_any, split, trim_space}
use elastic_fruit_runner.Config.Cloud.{
  Platform, ValidationIssue, problem, problem_if, below, above, cloud_issues,
}
use elastic_fruit_runner.Config.Startup.{has_targets, cloud_and_targets, cors_error}

unfoldable pub only_known_methods : List String → Bool
only_known_methods [] = true
only_known_methods (method ∷ methods) =
    let m = trim_space method in
    (m == "GET" || m == "POST" || m == "OPTIONS") && only_known_methods methods

-- An unknown method ends the check.
unfoldable pub cors_issues : CorsConfig → List ValidationIssue
cors_issues cors =
    if not (cors.allow_methods == "") && not (only_known_methods (split 44 cors.allow_methods))
    then problem "cors.allow_methods" "may contain only GET, POST, and OPTIONS"
    else problem_if
        (contains_any (10 ∷ []) cors.allow_headers || contains_any (10 ∷ []) cors.expose_headers)
        "cors" "header lists must stay on one line"

-- The directory of a file that is to be written, once the file itself is accepted.
unfoldable pub directory_issues : Platform → String → String → List ValidationIssue
directory_issues p path yaml_path = elim (p.stat (p.dir path)) [
  | some false ↦ problem yaml_path "parent path is not a directory"
  | some true ↦ elim (p.create_error (p.dir path)) [
    | some error ↦ problem yaml_path ("parent directory is not writable: " ++ error)
    | none ↦ []
  ]
  | none ↦
      problem_if (not (is_some (p.stat (p.dir (p.dir path))))) yaml_path
        "parent directory does not exist"
]

unfoldable pub validate_writable_path : Platform → String → String → List ValidationIssue
validate_writable_path p path yaml_path =
    if path == "" || path == ":memory:" then [] else elim (p.stat path) [
      | some true ↦ problem yaml_path "must be a file path"
      | some false ↦ elim (p.open_error path) [
        | some error ↦ problem yaml_path ("file is not writable: " ++ error)
        | none ↦ directory_issues p path yaml_path
      ]
      | none ↦ directory_issues p path yaml_path
    ]

-- Exactly one way to get jobs, and a complete cloud block.
unfoldable pub mode_issues : Platform → Config → List ValidationIssue
mode_issues p c = elim c.cloud [
  | none ↦ problem_if (not (has_targets c)) "$" "at least one org or repo is required"
  | some cloud ↦ append (problem_if (has_targets c) "$" cloud_and_targets) (cloud_issues p cloud)
]

-- err != nil || parsed.Scheme == "" || parsed.Host == ""
unfoldable pub is_origin : Platform → String → Bool
is_origin p origin = elim (p.parse_url origin) [
  | none ↦ false
  | some parsed ↦ not (parsed.scheme == "") && not (parsed.host == "")
]

-- The fields from idle_timeout to cors.max_age.
unfoldable pub field_issues : Platform → Config → List ValidationIssue
field_issues p c =
    append
      (problem_if (below c.idle_timeout 1 || above c.idle_timeout 86400000000000) "idle_timeout"
        "must be greater than 0 and no more than 24h")
      (append
        (problem_if (not (is_some (parsed_log_level c))) "log_level"
          "must be debug, info, warn, or error")
        (append
          (problem_if (not (c.api_addr == "") && not (p.splits_host_port c.api_addr)) "api_addr"
            "must be a host and port such as :8080")
          (append
            (problem_if (cors_error c.cors) "cors.allow_origin"
              "must be a specific origin when credentials are allowed")
            (append
              (problem_if
                (not (c.cors.allow_origin == "")
                  && not (c.cors.allow_origin == "*")
                  && not (is_origin p c.cors.allow_origin))
                "cors.allow_origin" "must be a valid origin URL")
              (problem_if (below c.cors.max_age 0 || above c.cors.max_age 86400) "cors.max_age"
                "must be between 0 and 86400")))))

-- Everything that is checked before the orgs.
unfoldable pub settings_issues : Platform → Config → List ValidationIssue
settings_issues p c = append (mode_issues p c) (
    append (field_issues p c) (
      append (cors_issues c.cors) (
        append (validate_writable_path p c.db_path "db_path")
          (validate_writable_path p c.log_path "log_path"))))
