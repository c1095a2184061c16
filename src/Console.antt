-- ===== src/Console.antt =====
-- internal/api: what the steps of the console's setup page are made from, and the part of the
-- server and of the results of internal/probe that they read. What the server asks of the cloud
-- agent, of the management service and of the clock stands in its record.
pub mod Checklist
use Prim.Native.String.{◌++◌}
use mathlib.Core.List.{◌++◌ as append}
use elastic_fruit_runner.Base.{
  ℕ, Bool, true, false, String, Option, none, some, List, [], ◌∷◌, ◌==◌, ltb, if◌then◌else◌,
}
use elastic_fruit_runner.Config.{Config, OrgConfig, RepoConfig, RunnerSetConfig}
use elastic_fruit_runner.Controller.Tracker.{Duration}
use elastic_fruit_runner.Management.History.{JobRecord}
use elastic_fruit_runner.Management.Service.{RunnerSetView}

pub data StepStatus : Type 0 where
  step_pass step_fail step_pending step_skipped : StepStatus

pub record SetupStep : Type 0 where
  pub id : String
  pub title : String
  pub status : StepStatus
  pub message : String
  pub page : String

-- probe.Status and probe.Check
pub data CheckStatus : Type 0 where
  check_pass check_fail check_skipped : CheckStatus

pub record Check : Type 0 where
  pub name : String
  pub status : CheckStatus
  pub message : String

pub record GithubTarget : Type 0 where
  pub org : String
  pub repo : String

pub record GithubProbe : Type 0 where
  pub target : GithubTarget
  pub checks : List Check

pub record BackendResult : Type 0 where
  pub backend : String
  pub available : Bool
  pub version : String
  pub error : String

-- The cloud connection of the server.
pub record CloudInfo : Type 0 where
  pub server_url : String
  pub connected : Bool

-- What the management service lists: its runner sets, and its job records, the newest first.
pub record Listed : Type 0 where
  pub runner_sets : List RunnerSetView
  pub job_records : List JobRecord

pub record Server : Type 0 where
  pub active_config : Option Config
  pub config_path : String
  pub cloud : Option CloudInfo
  pub management : Option Listed
  pub uptime : Duration

abbrev pub connect_grace_period : Duration
connect_grace_period = 120000000000
