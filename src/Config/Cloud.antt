-- ===== src/Config/Cloud.antt =====
-- config/validation.go: one rejected field, what the validators ask of code outside the
-- repository, and the checks of the cloud block.
use Prim.Native.String.{◌++◌}
use mathlib.Core.List.{◌++◌ as append}
use elastic_fruit_runner.Base.{
  ℕ, ℤ, pos, negsuc, Bool, true, false, String, Option, none, some, List, [], ◌∷◌, ltb, ◌==◌, not,
  ◌&&◌, ◌||◌, ◌⊎◌, if◌then◌else◌,
}
use elastic_fruit_runner.Config.{CloudConfig}
use elastic_fruit_runner.Config.Text.{decimal}

pub record ValidationIssue : Type 0 where
  pub path : String
  pub message : String

-- ValidationIssue.String
abbrev pub issue_string : ValidationIssue → String
issue_string i = if i.path == "" then i.message else i.path ++ ": " ++ i.message

-- net/url: a parsed URL. `hostname` is the method Hostname.
pub record Url : Type 0 where
  pub scheme : String
  pub host : String
  pub hostname : String

-- What the validators ask of Go's library and of the operating system.
pub record Platform : Type 0 where
  -- url.Parse
  pub parse_url : String → Option Url
  -- net.SplitHostPort, whether it succeeds
  pub splits_host_port : String → Bool
  -- `%q`
  pub quoted : String → String
  -- os.ReadFile: the error's text, or the content
  pub read_file : String → String ⊎ String
  -- pem.Decode: the type of the first block
  pub pem_type : String → Option String
  -- strings.Contains(type, "PRIVATE KEY")
  pub is_private_key : String → Bool
  -- filepath.Dir
  pub dir : String → String
  -- os.Stat: whether the file that is there is a directory
  pub stat : String → Option Bool
  -- os.OpenFile for writing, and os.CreateTemp in a directory: the error's text
  pub open_error : String → Option String
  pub create_error : String → Option String

-- `x < n` on Go's integers, for n not below zero
abbrev pub below : ℤ → ℕ → Bool
below (pos m) n = ltb m n
below (negsuc m) n = true

abbrev pub above : ℤ → ℕ → Bool
above (pos m) n = ltb n m
above (negsuc m) n = false

unfoldable pub is_local_host : String → Bool
is_local_host hostname = hostname == "localhost" || hostname == "127.0.0.1"

-- addError(path, message), the issues in the order in which they are added.
abbrev pub problem : String → String → List ValidationIssue
problem path message = record { path = path; message = message } ∷ []

abbrev pub problem_if : Bool → String → String → List ValidationIssue
problem_if test path message = if test then problem path message else []

-- The three branches on the server's URL.
unfoldable pub server_url_issues : Platform → String → List ValidationIssue
server_url_issues p url =
    if url == ""
    then problem "cloud.server_url" "is required in cloud mode"
    else elim (p.parse_url url) [
      | none ↦ problem "cloud.server_url" (p.quoted url ++ " is not a valid URL")
      | some parsed ↦
          if parsed.scheme == "" || parsed.host == ""
          then problem "cloud.server_url" (p.quoted url ++ " is not a valid URL")
          else problem_if
              (not (parsed.scheme == "https")
                && (not (parsed.scheme == "http") || not (is_local_host parsed.hostname)))
              "cloud.server_url"
              (p.quoted url ++ " must use https, http is only allowed for localhost and 127.0.0.1")
    ]

unfoldable pub cloud_issues : Platform → CloudConfig → List ValidationIssue
cloud_issues p cloud = append (server_url_issues p cloud.server_url) (
    problem_if (below cloud.max_runners 1) "cloud.max_runners"
      ("must be at least 1, got " ++ decimal cloud.max_runners))

-- CloudConfig.Validate: the first problem.
unfoldable pub validate_cloud : Platform → CloudConfig → Option String
validate_cloud p cloud = elim (cloud_issues p cloud) [
  | [] ↦ none
  | issue ∷ issues ↦ some (issue_string issue)
]
