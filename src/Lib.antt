-- ===== src/Lib.antt =====
-- elastic-fruit-runner: a daemon that runs ephemeral GitHub Actions runners on a host and keeps
-- the history of their jobs.
--
-- The parts that are modelled, and how they meet:
--
-- * Controller/ is internal/controller. `RunnerTracker` (runnerstate.go, types.go) has the phase
--   of each runner: Controller/Tracker. `ScaleSetController`'s handlers, the `startRunner`
--   goroutine, the reaper and the shutdown (scaler.go) are functions from a controller to a
--   controller and the effects they ask for, in order: Controller/Scaler. `Run` (controller.go)
--   with its error paths, and with the goroutines that end after its `removeAll`, is
--   Controller/Lifecycle, `labelsMatch` is Controller/Labels.
--   Controller/System composes the handlers to a transition system: the listener, the ticker and
--   the goroutines call them in any order, and each is one step because the tracker's mutex
--   covers what it changes. The random suffixes of the runner names are arguments; a theorem that
--   needs them to be new has that as a hypothesis.
-- * Storage/Jobs has the tables jobs, job_logs and job_resource_samples (internal/storage/sqlc),
--   one function for each SQL statement on them. Storage/Transactions has a transaction on them,
--   with its commit and rollback.
-- * Management/ is internal/management. Management/JobStore (jobs.go) records the starts and
--   completions that the controllers report, and captures logs and samples; the `captureState`
--   that the map and the goroutine share stands in a heap. Management/JobStore/Readers has what
--   ReadLogs of the backends (internal/backend) gives of a log. Management/Provisional
--   (provisional.go) has the records that are opened before the job is known. Management/History
--   (jobs.go) has the queries of the history. Management/Host (host.go) has the samples of the
--   host, on the table of Storage/Samples, and cleanHistory, on the statements of
--   Storage/Retention. Management/Service (service.go) has New, with the clients of
--   internal/githubclient, on a configuration that Config/Startup has checked.
-- * Auth is internal/auth/service.go: the admin password, the limit on failed logins and the
--   console's sessions, on the tables of Storage/Console.
-- * CloudAgent/ is internal/cloudagent: the registry of runners and backends (service.go) is
--   CloudAgent/Agent, the handlers of the commands (commands.go) are CloudAgent/Commands, on the
--   same tracker and job store; CloudAgent/Starts runs the goroutines of StartRunner and
--   CleanupRunner side by side, with each call of a backend ending at any later time;
--   CloudAgent/Sets has CleanupRunnerSet and the queue of samples (samples.go).
-- * Config is config/: Config.Validate, which stops at the first problem (config.go), is
--   Config/Startup; ValidateConfig, which collects every problem (validation.go), is
--   Config/Cloud, Config/Settings, Config/Targets and Config/Yaml, the last with ValidateYAML and
--   Load (load.go). Config/CloudBlock has WithCloudBlock (cloud_yaml.go) and FindConfigPath.
--   Config/Accepted describes what Validate accepts. Config/Text has the functions on texts.
-- * StoredConfig/ is internal/configstate: the snapshot, Save and saveRevision are StoredConfig,
--   the other calls StoredConfig/Operations; StoredConfig/Secrets redacts the tokens of a YAML
--   tree (Config/Node) and merges them again, StoredConfig/Texts does so for texts. The revisions
--   stand in the table of Storage/Revisions.
-- * Console is internal/api: Console/Checklist has the setup checklist (checklist.go), on what the
--   probes of internal/probe answer.
-- * Messages has the fields of the scale set API's messages that these parts read.
--
-- What stands outside the repository is an argument: GitHub's answers and the listener are the
-- record `Environment` and the function `github`, the backend's outcome is `StartOutcome`, the
-- failing SQL statements are `Faults`, what the validators ask of URLs, of PEM and of the file
-- system is `Platform`, the sizes of the files are in `World`, the decoder of YAML is `Yaml`,
-- viper is `Loader`, the constructors of the scaleset package are in `Surroundings`, encoding/json
-- and strings are `Library` or `to_json`, and each call of time.Now or of the random source is an
-- argument of its caller, `int64_n` for rand.Int64N.
--
-- Bounds and fuel: counts, sizes and times are natural numbers, since the code keeps them from
-- being negative where it computes with them; a filter's cursor and page size, and the numbers of
-- the configuration, are integers. `follow`, a client of the pages of the history, runs on fuel:
-- 2001 pages are enough, since the query gives at most 2000 jobs and each page but the last has
-- one of them. The loops of cleanHistory run on fuel: one round for each completed job, and one
-- more, for the outer loop; one for each byte to free, and one more, for the inner loop.
--
-- Not modelled: logging and tracing, since they change no state; the goroutines that the
-- management service starts around Run; the call of the sample observer that the job store makes
-- for each sample; the cloud agent's streams, timers and HTTP reports; the wait in `stopCapture`,
-- whose goroutine ends within it; and, as input and output, the rest of the HTTP console, the
-- backends' calls of docker, tart and ssh, the probes and the dashboard.
pub mod Base
pub mod Messages
pub mod Controller
pub mod Storage
pub mod Management
pub mod Auth
pub mod CloudAgent
pub mod Config
pub mod Console
pub mod StoredConfig
