-- ===== src/Management/JobStore/Restart.antt =====
-- jobs.go, stopCapture: what a stopped capture leaves alone, and what a second start of the same
-- job does to the capture of the first.
use elastic_fruit_runner.Base.{
  ℕ, suc, ◌<◌, ◌≡◌, ◌≢◌, refl, sym, ◌∙◌, ap, true, String, Option, none, some, arith, eq_iff,
  lookup, lookup-insert, lookup-delete, insert, delete,
}
use elastic_fruit_runner.Storage.Jobs.{
  Bytes, insert_job_log, insert_job_resource_sample, ResourceSample,
}
use elastic_fruit_runner.Management.JobStore.{
  Faults, CaptureState, JobStore, FinalReads, capture_logs, start_capture, stop_capture,
  capture_resource, stop_capture_at, cancel,
}

-- What a stopped capture leaves alone: the records, the map and every other capture's state.
module _ (fails : Faults) (now at : ℕ) where
  capture_logs_keeps :
      (text : Option Bytes) (s : JobStore)
      → ((capture_logs fails now at text s).captures ≡ s.captures)
        × ((capture_logs fails now at text s).db.jobs ≡ s.db.jobs)
        × ((n : ℕ) → n ≢ at → (capture_logs fails now at text s).heap n ≡ s.heap n)
  unfolding capture_logs insert_job_log
  capture_logs_keeps text s = (ground arith, ground arith, λ n other. ground arith)

  capture_resource_keeps :
      (sample : Option ResourceSample) (s : JobStore)
      → ((capture_resource fails at sample s).captures ≡ s.captures)
        × ((capture_resource fails at sample s).db.jobs ≡ s.db.jobs)
        × ((capture_resource fails at sample s).heap ≡ s.heap)
  unfolding capture_resource insert_job_resource_sample
  capture_resource_keeps sample s = (ground arith, ground arith, ground arith)

  cancel_keeps :
      (state : Option CaptureState) (s : JobStore)
      → ((cancel at state s).captures ≡ s.captures)
        × ((cancel at state s).db.jobs ≡ s.db.jobs)
        × ((n : ℕ) → n ≢ at → (cancel at state s).heap n ≡ s.heap n)
  unfolding cancel
  cancel_keeps none s = (refl, refl, λ n other. refl)
  cancel_keeps (some state) s = (refl, refl, λ n other. ground arith)

pub stop_capture_at_keeps :
    (fails : Faults) (now : ℕ) (reads : FinalReads) (address : Option ℕ) (s : JobStore)
    → let s' = stop_capture_at fails now reads address s in
      (s'.captures ≡ s.captures)
      × (s'.db.jobs ≡ s.db.jobs)
      × ((n : ℕ) → address ≢ some n → s'.heap n ≡ s.heap n)
stop_capture_at_keeps fails now reads none s =
    unfold stop_capture_at in (refl, refl, λ n other. refl)
stop_capture_at_keeps fails now reads (some at) s =
    let first = cancel at (s.heap at) s in
    let second = capture_logs fails now at reads.text first in
    let a = cancel_keeps fails now at (s.heap at) s in
    let b = capture_logs_keeps fails now at reads.text first in
    let c = capture_resource_keeps fails now at reads.sample second in
    unfold stop_capture_at in
    (
      c.0 ∙ b.0 ∙ a.0,
      c.1 ∙ b.1 ∙ a.1,
      λ n other.
          let apart : n ≢ at = λ e. other (ap some (sym e)) in
          ap (λ (h : ℕ → Option CaptureState). h n) c.2 ∙ b.2 n apart ∙ a.2 n apart,
    )

-- Every address in the map of captures has been given out.
abbrev pub IsAddressed : JobStore → Type 0
IsAddressed s = (id : String) (at : ℕ) → lookup id s.captures ≡ some at → at < s.next_capture

-- A job whose capture starts twice: the map then only knows the second capture, so once the job has
-- been stopped the first one still runs and no entry of the map leads to it.
pub second_start_leaks :
    (fails : Faults) (now : ℕ) (reads : FinalReads) (id r₁ r₂ : String) (s : JobStore)
    → IsAddressed s
    → let s' = stop_capture fails now reads id (start_capture id r₂ (start_capture id r₁ s)) in
      (s'.heap s.next_capture
        ≡ some (record { job_id = id; runner_name = r₁; log_size = 0; live = true }))
      × ((j : String) → lookup j s'.captures ≢ some s.next_capture)
unfolding stop_capture start_capture
second_start_leaks fails now reads id r₁ r₂ s addressed =
    let twice = start_capture id r₂ (start_capture id r₁ s) in
    let old = s.next_capture in
    let known : lookup id twice.captures ≡ some (suc old) =
      unfold start_capture in
      ground (arith, lookup-insert id id (suc old) (insert id old s.captures), eq_iff id id) in
    let kept =
      stop_capture_at_keeps fails now reads (lookup id twice.captures)
        (record twice { captures = delete id twice.captures }) in
    let apart : lookup id twice.captures ≢ some old = λ e. ground arith in
    (
      unfold stop_capture in kept.2 old apart ∙ unfold start_capture in ground arith,
      λ j.
          unfold stop_capture start_capture in
          rw kept.0 λ e. ground (
            arith,
            lookup-delete id j (insert id (suc old) (insert id old s.captures)),
            lookup-insert id j (suc old) (insert id old s.captures),
            lookup-insert id j old s.captures,
            addressed j old,
          ),
    )
