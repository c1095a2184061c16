-- ===== src/Controller/Lifecycle/Held.antt =====
-- controller.go, Run: what is held at each call, and that nothing is held at the end.
use elastic_fruit_runner.Base.{
  ℕ, ◌≡◌, refl, ◌∙◌, ap, Bool, true, false, Option, none, some, List, [], ◌∷◌, ◌++◌, arith,
  if◌then◌else◌, eqb,
}
use elastic_fruit_runner.Controller.Scaler.{ScaleSetController, Effect}
use elastic_fruit_runner.Controller.Lifecycle.{
  ScaleSet, Call, set_system_info, delete_set, open_message_session, session_closed, cancel_runners,
  Environment, as_calls, listen, connect, Ensured, ready, failed, ensure_scale_set,
  connect_if_ready, run_in_group, run,
}

-- `live` until the context of the runners is cancelled; the scale set from `SetSystemInfo`, the
-- first call after it is known, to its deletion; the message session from its opening to `Close`.
pub record Held : Type 0 where
  pub live : Bool
  pub scale_set : Option ℕ
  pub session : Bool

abbrev pub at_start : Held
at_start = record { live = true; scale_set = none; session = false }

abbrev pub nothing : Held
nothing = record { live = false; scale_set = none; session = false }

abbrev drop_set : ℕ → Option ℕ → Option ℕ
drop_set id none = none
drop_set id (some held) = if eqb held id then none else some held

unfoldable pub observe : Held → Call → Held
observe h (set_system_info id) = record h { scale_set = some id }
observe h (delete_set id) = record h { scale_set = drop_set id h.scale_set }
observe h (open_message_session id owner opened) = record h { session = opened }
observe h session_closed = record h { session = false }
observe h cancel_runners = record h { live = false }
observe h _ = h

unfoldable pub replay : Held → List Call → Held
replay h [] = h
replay h (c ∷ cs) = replay (observe h c) cs

replay-append : (h : Held) (xs ys : List Call) → replay h (xs ++ ys) ≡ replay (replay h xs) ys
unfolding replay
replay-append h [] ys = refl
replay-append h (x ∷ xs) ys = replay-append (observe h x) xs ys

replay-as_calls : (h : Held) (es : List Effect) → replay h (as_calls es) ≡ h
unfolding replay observe as_calls
replay-as_calls h [] = refl
replay-as_calls h (e ∷ es) = replay-as_calls h es

listen_releases :
    (env : Environment) (d : ScaleSetController) (set : ℕ)
    → replay (record { live = true; scale_set = some set; session = true }) (listen env d set).calls
      ≡ nothing
unfolding listen replay observe
listen_releases env d set = simp (replay-append, replay-as_calls) (ground arith)

connect_releases :
    (env : Environment) (d : ScaleSetController) (ss : ScaleSet)
    → replay at_start (connect env d ss).calls ≡ nothing
unfolding connect replay observe
connect_releases env d ss = ground (arith, listen_releases env d ss.id)

connect_if_ready_releases :
    (env : Environment) (d : ScaleSetController) (e : Ensured)
    → replay at_start (connect_if_ready env d e).calls ≡ nothing
unfolding connect_if_ready replay observe
connect_if_ready_releases env d (failed e) = refl
connect_if_ready_releases env d (ready ss) =
    connect_releases env (record d { scale_set_id = ss.id }) ss

ensure_holds :
    (env : Environment) (d : ScaleSetController) (group : ℕ) (found : Option ScaleSet)
    → replay at_start (ensure_scale_set env d group found).0 ≡ at_start
unfolding ensure_scale_set replay observe
ensure_holds env d group none = refl
ensure_holds env d group (some ss) = ground arith

run_in_group_releases :
    (env : Environment) (d : ScaleSetController) (group : Option ℕ)
    → replay at_start (run_in_group env d group).calls ≡ nothing
unfolding run_in_group replay observe
run_in_group_releases env d none = refl
run_in_group_releases env d (some group) =
    let found = env.existing group d.rs_cfg.name in
    let ensured = ensure_scale_set env d group found in
    replay-append at_start ensured.0 (connect_if_ready env d ensured.1).calls
    ∙ ap (λ h. replay h (connect_if_ready env d ensured.1).calls) (ensure_holds env d group found)
    ∙ connect_if_ready_releases env d ensured.1

-- Whatever GitHub, the host and the listener answer, when `Run` returns it has cancelled the context
-- of its runners, closed the message session if it opened one, and asked for the deletion of the
-- scale set if it got as far as using one.
pub run_releases :
    (env : Environment) (d : ScaleSetController) → replay at_start (run env d).calls ≡ nothing
unfolding run replay observe
run_releases env d = run_in_group_releases env d (env.group d.runner_group)
