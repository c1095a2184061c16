-- ===== src/Controller/Lifecycle.antt =====
-- internal/controller/controller.go, Run: from the cleanup of an earlier run to the shutdown.
-- GitHub's client, the host name, the message session and the listener are not part of this
-- repository: what each call returns is a field of `Environment`, and the calls are listed in order.
-- What the listener, the reaper and the goroutines do until `removeAll` is the field `serve`; what
-- goroutines whose backend had already succeeded or failed, and a last tick of the reaper, do
-- between `removeAll` and the return of `Run` is the field `late`, in the order in which they come.
-- No goroutine of an earlier `Run` is left.
pub mod Held
pub mod Ending
use elastic_fruit_runner.Base.{
  ℕ, Bool, true, false, String, append_text, Option, none, some, List, [], ◌∷◌, ◌++◌, if◌then◌else◌,
}
use elastic_fruit_runner.Controller.Tracker.{Time, set_runner_ctx}
use elastic_fruit_runner.Controller.Scaler.{
  ScaleSetController, Effect, StartOutcome, start_runner, reap_expired_idle_runners, shutdown,
}
use elastic_fruit_runner.Controller.Labels.{labels_match}

pub record ScaleSet : Type 0 where
  pub id : ℕ
  pub labels : List String

pub data RunError : Type 0 where
  get_runner_group create_scale_set update_scale_set open_session create_listener : RunError
  listener_failed : String → RunError

pub data Call : Type 0 where
  cleanup_all : String → Call
  get_group : String → Call
  get_scale_set : ℕ → String → Call
  create_set : String → ℕ → List String → Call
  update_set : ℕ → String → ℕ → List String → Call
  set_system_info : ℕ → Call
  delete_set : ℕ → Call
  open_message_session : ℕ → String → Bool → Call
  session_closed : Call
  reaper_started : Call
  cancel_runners : Call
  acts : Effect → Call

-- A `startRunner` that ends after `removeAll`, and a tick of the reaper.
pub data Late : Type 0 where
  late_end : String → StartOutcome → Time → Late
  late_tick : Time → Late

-- `none` is a call that returns an error; for `existing` also one that returns no scale set.
pub record Environment : Type 0 where
  pub group : String → Option ℕ
  pub existing : ℕ → String → Option ScaleSet
  pub create : String → ℕ → List String → Option ScaleSet
  pub update : ℕ → String → ℕ → List String → Option ScaleSet
  pub hostname : Option String
  pub uuid : String
  pub session : ℕ → String → Bool
  pub listener : ℕ → ℕ → Bool
  pub runner_ctx : ℕ
  pub serve : ScaleSetController → ScaleSetController × List Effect × Option String
  pub late : List Late
  pub github : String → Option ℕ

pub record Outcome : Type 0 where
  pub controller : ScaleSetController
  pub calls : List Call
  pub error : Option RunError

unfoldable pub settle_late :
    (String → Option ℕ) → List Late → ScaleSetController → ScaleSetController × List Effect
settle_late github [] d = (d, [])
settle_late github (late_end name outcome now ∷ ls) d =
    let (ended, effects) = start_runner github d name outcome now in
    let (settled, more) = settle_late github ls ended in (settled, effects ++ more)
settle_late github (late_tick now ∷ ls) d =
    let (reaped, effects) = reap_expired_idle_runners github d now in
    let (settled, more) = settle_late github ls reaped in (settled, effects ++ more)

unfoldable pub desired_labels : ScaleSetController → List String
desired_labels d = d.rs_cfg.name ∷ d.rs_cfg.labels

unfoldable pub as_calls : List Effect → List Call
as_calls [] = []
as_calls (e ∷ es) = acts e ∷ as_calls es

unfoldable pub or_uuid : Option String → String → String
or_uuid none uuid = uuid
or_uuid (some name) uuid = name

-- The calls made before `o`'s.
abbrev pub then_calls : List Call → Outcome → Outcome
then_calls calls o = record o { calls = calls ++ o.calls }

-- `l.Run` and what follows it, with the deferred calls: the session and the set are held.
unfoldable pub listen : Environment → ScaleSetController → ℕ → Outcome
unfolding as_calls
listen env d set =
    let served =
      env.serve
        (record d { runners = set_runner_ctx (some env.runner_ctx) d.runners; connected = true }) in
    let stopped = shutdown env.github (record served.0 { connected = false }) in
    let settled = settle_late env.github env.late stopped.0 in
    record {
      controller = settled.0;
      calls =
          reaper_started
          ∷ (as_calls served.1
              ++ (cancel_runners
                  ∷ (as_calls stopped.1
                      ++ (as_calls settled.1 ++ (session_closed ∷ delete_set set ∷ [])))));
      error = elim served.2 [ none ↦ none | some e ↦ some (listener_failed e) ];
    }

-- From `SetSystemInfo` on: the scale set is held.
unfoldable pub connect : Environment → ScaleSetController → ScaleSet → Outcome
unfolding listen or_uuid
connect env d ss =
    let owner = append_text (or_uuid env.hostname env.uuid) (append_text "-" d.rs_cfg.name) in
    let opened = env.session ss.id owner in
    then_calls (set_system_info ss.id ∷ open_message_session ss.id owner opened ∷ []) (
      if opened
      then if env.listener ss.id d.rs_cfg.max_runners then listen env d ss.id else record {
        controller = d;
        calls = cancel_runners ∷ session_closed ∷ delete_set ss.id ∷ [];
        error = some create_listener;
      }
      else record {
        controller = d;
        calls = cancel_runners ∷ delete_set ss.id ∷ [];
        error = some open_session;
      })

pub data Ensured : Type 0 where
  ready : ScaleSet → Ensured
  failed : RunError → Ensured

abbrev or_failed : Option ScaleSet → RunError → Ensured
or_failed none e = failed e
or_failed (some ss) e = ready ss

-- The `switch` over the scale set that GitHub has: create it, give it the labels, or keep it.
unfoldable pub ensure_scale_set :
    Environment → ScaleSetController → ℕ → Option ScaleSet → List Call × Ensured
unfolding desired_labels
ensure_scale_set env d group none =
    let labels = desired_labels d in
    (
      create_set d.rs_cfg.name group labels ∷ [],
      or_failed (env.create d.rs_cfg.name group labels) create_scale_set,
    )
ensure_scale_set env d group (some ss) =
    let labels = desired_labels d in
    if labels_match ss.labels labels then ([], ready ss) else (
      update_set ss.id d.rs_cfg.name group labels ∷ [],
      or_failed (env.update ss.id d.rs_cfg.name group labels) update_scale_set,
    )

abbrev give_up : ScaleSetController → RunError → Outcome
give_up d e = record { controller = d; calls = cancel_runners ∷ []; error = some e }

unfoldable pub connect_if_ready : Environment → ScaleSetController → Ensured → Outcome
unfolding connect
connect_if_ready env d (failed e) = give_up d e
connect_if_ready env d (ready ss) = connect env (record d { scale_set_id = ss.id }) ss

unfoldable pub run_in_group : Environment → ScaleSetController → Option ℕ → Outcome
unfolding ensure_scale_set connect_if_ready
run_in_group env d none = give_up d get_runner_group
run_in_group env d (some group) =
    let (calls, ensured) = ensure_scale_set env d group (env.existing group d.rs_cfg.name) in
    then_calls (get_scale_set group d.rs_cfg.name ∷ calls) (connect_if_ready env d ensured)

unfoldable pub run : Environment → ScaleSetController → Outcome
unfolding run_in_group
run env d =
    then_calls (cleanup_all d.rs_cfg.name ∷ get_group d.runner_group ∷ [])
      (run_in_group env d (env.group d.runner_group))
