-- ===== src/Management/JobStore/Capture.antt =====
-- jobs.go, captureLogs: the capture of a runner's log, read by read.
use elastic_fruit_runner.Base.{
  ℕ, ◌≤◌, ◌≡◌, refl, sym, subst, ◌∙◌, ap, true, false, String, some, List, [], ◌∷◌, ◌++◌, arith,
  eq_iff, ◌==◌, if◌then◌else◌, leb, length, length-append, drop,
}
use mathlib.Core.List.{append_assoc, append-nil}
use elastic_fruit_runner.Storage.Jobs.{Bytes, JobLog, Database, insert_job_log}
use elastic_fruit_runner.Management.JobStore.Readers.{
  Reader, read_logs, IsRead, read_logs_whole, IsRead-append,
}
use elastic_fruit_runner.Management.JobStore.{
  Faults, CaptureState, JobStore, update, max_log_bytes, last_bytes, capture_logs, inserts_log,
  capture_text, capture_text_at,
}

-- The log that is stored for a job: its rows' texts in a row.
pub stored_text : String → List JobLog → Bytes
stored_text job_id [] = []
stored_text job_id (l ∷ ls) =
    let rest = stored_text job_id ls in if l.job_id == job_id then l.text ++ rest else rest

stored_text-append :
    (job_id : String) (xs ys : List JobLog)
    → stored_text job_id (xs ++ ys) ≡ stored_text job_id xs ++ stored_text job_id ys
unfolding stored_text
stored_text-append job_id [] ys = refl
stored_text-append job_id (x ∷ xs) ys = ground (
  arith,
  stored_text-append job_id xs ys,
  append_assoc x.text (stored_text job_id xs) (stored_text job_id ys),
)

drop-append : (xs ys : Bytes) → drop (length xs) (xs ++ ys) ≡ ys
drop-append [] ys = refl
drop-append (x ∷ xs) ys = drop-append xs ys

-- The reads of one capture: `seen` is what the runner had written at the last read, and each chunk
-- is what it wrote since.
pub read_chunks : Reader → Faults → (ℕ → ℕ) → ℕ → Bytes → List Bytes → JobStore → JobStore
read_chunks reader fails clock at seen [] s = s
read_chunks reader fails clock at seen (c ∷ cs) s =
    read_chunks reader fails clock at (seen ++ c) cs
      (capture_logs fails (clock (length cs)) at (some (read_logs reader (seen ++ c))) s)

abbrev pub join : List Bytes → Bytes
join [] = []
join (c ∷ cs) = c ++ join cs

abbrev pub AllShort : List Bytes → Type 0
AllShort [] = Unit {0}
AllShort (c ∷ cs) = (length c ≤ max_log_bytes) × AllShort cs

last_bytes_short : (added : Bytes) → length added ≤ max_log_bytes → last_bytes added ≡ added
unfolding last_bytes
last_bytes_short added h = ground arith

-- A read that finds more text stores what is new.
capture_text_grows :
    (fails : Faults) (now at : ℕ) (seen : Bytes) (c : ℕ) (cs : Bytes) (state : CaptureState)
    (s : JobStore)
    → fails inserts_log ≡ false
    → state.log_size ≡ length seen
    → length (c ∷ cs) ≤ max_log_bytes
    → capture_text fails now at state (seen ++ c ∷ cs) s ≡ record s {
      heap = update s.heap at (record state { log_size = length (seen ++ c ∷ cs) });
      db = insert_job_log s.db state.job_id now (c ∷ cs);
    }
unfolding capture_text
capture_text_grows fails now at seen c cs state s ok size short =
    let longer : leb (length (seen ++ c ∷ cs)) state.log_size ≡ false =
      ground (arith, length-append seen (c ∷ cs)) in
    let rest : drop state.log_size (seen ++ c ∷ cs) ≡ c ∷ cs =
      rw size (drop-append seen (c ∷ cs)) in
    rw (longer, ok, rest, last_bytes_short (c ∷ cs) short)

stored_text-insert :
    (db : Database) (job_id : String) (now : ℕ) (text : Bytes)
    → stored_text job_id (insert_job_log db job_id now text).job_logs
      ≡ stored_text job_id db.job_logs ++ text
unfolding insert_job_log
stored_text-insert db job_id now text =
    let own : stored_text job_id (
          record { sequence = db.next_sequence; job_id = job_id; recorded_at = now; text = text }
          ∷ [])
        ≡ text =
      unfold stored_text in ground (arith, eq_iff job_id job_id, append-nil text) in
    stored_text-append job_id db.job_logs _ ∙ ap (◌++◌ (stored_text job_id db.job_logs)) own

capture_chunk :
    (fails : Faults) (now at : ℕ) (seen chunk : Bytes) (state : CaptureState) (s : JobStore)
    → fails inserts_log ≡ false
    → s.heap at ≡ some state
    → state.log_size ≡ length seen
    → length chunk ≤ max_log_bytes
    → let s' = capture_logs fails now at (some (seen ++ chunk)) s in
      (s'.heap at ≡ some (record state { log_size = length (seen ++ chunk) }))
      × (stored_text state.job_id s'.db.job_logs ≡ stored_text state.job_id s.db.job_logs ++ chunk)
unfolding capture_logs
capture_chunk fails now at seen [] state s ok found size short =
    let same : leb (length (seen ++ [])) state.log_size ≡ true = ground (arith, append-nil seen) in
    rw (found, capture_text_at)
      (unfold capture_text in
        rw same (
          found
              ∙ ap (λ (n : ℕ). some (record state { log_size = n }))
                  (size ∙ ap length (sym (append-nil seen))),
          sym (append-nil (stored_text state.job_id s.db.job_logs)),
        ))
capture_chunk fails now at seen (c ∷ cs) state s ok found size short =
    rw (found, capture_text_at)
      (rw (capture_text_grows fails now at seen c cs state s ok size short)
        (ground arith, stored_text-insert s.db state.job_id now (c ∷ cs)))

-- However a capture's reads cut up the log that a runner writes, the texts stored for the job grow
-- by exactly what the runner wrote, as long as its whole log has at most 5000 lines where the
-- backend is tart, no more than a mebibyte comes between two reads, and the database accepts the
-- rows.
pub read_chunks_stores :
    (reader : Reader) (fails : Faults) (clock : ℕ → ℕ) (at : ℕ) (seen : Bytes) (chunks : List Bytes)
    (state : CaptureState) (s : JobStore)
    → IsRead reader (seen ++ join chunks)
    → fails inserts_log ≡ false
    → s.heap at ≡ some state
    → state.log_size ≡ length seen
    → AllShort chunks
    → stored_text state.job_id (read_chunks reader fails clock at seen chunks s).db.job_logs
      ≡ stored_text state.job_id s.db.job_logs ++ join chunks
unfolding read_chunks
read_chunks_stores reader fails clock at seen [] state s whole ok found size short =
    sym (append-nil (stored_text state.job_id s.db.job_logs))
read_chunks_stores reader fails clock at seen (c ∷ cs) state s whole ok found size short =
    let now = clock (length cs) in
    let all = subst (IsRead reader) (sym (append_assoc seen c (join cs))) whole in
    let read =
      read_logs_whole reader (seen ++ c) (IsRead-append reader (seen ++ c) (join cs) all) in
    let (found', grown) = capture_chunk fails now at seen c state s ok found size short.0 in
    let stored = stored_text state.job_id s.db.job_logs in
    subst
      (λ log.
        stored_text state.job_id
          (read_chunks reader fails clock at (seen ++ c) cs
            (capture_logs fails now at (some log) s)).db.job_logs
        ≡ stored ++ (c ++ join cs))
      (sym read)
      (read_chunks_stores reader fails clock at (seen ++ c) cs
          (record state { log_size = length (seen ++ c) })
          (capture_logs fails now at (some (seen ++ c)) s) all ok found' refl short.1
        ∙ ap (λ (t : Bytes). t ++ join cs) grown
        ∙ append_assoc stored c (join cs))

-- A read of captureLogs that finds more text, and whose row the database refuses, stores nothing and
-- still counts the whole text as stored.
refused_chunk :
    (fails : Faults) (now at : ℕ) (seen chunk : Bytes) (state : CaptureState) (s : JobStore)
    → fails inserts_log ≡ true
    → s.heap at ≡ some state
    → state.log_size ≡ length seen
    → let s' = capture_logs fails now at (some (seen ++ chunk)) s in
      (s'.heap at ≡ some (record state { log_size = length (seen ++ chunk) })) × (s'.db ≡ s.db)
unfolding capture_logs
refused_chunk fails now at seen [] state s bad found size =
    let same : leb (length (seen ++ [])) state.log_size ≡ true = ground (arith, append-nil seen) in
    rw (found, capture_text_at)
      (unfold capture_text in
        rw same (
          found
              ∙ ap (λ (n : ℕ). some (record state { log_size = n }))
                  (size ∙ ap length (sym (append-nil seen))),
          refl,
        ))
refused_chunk fails now at seen (c ∷ cs) state s bad found size =
    let longer : leb (length (seen ++ c ∷ cs)) state.log_size ≡ false =
      ground (arith, length-append seen (c ∷ cs)) in
    rw (found, capture_text_at) (unfold capture_text in rw (longer, bad) (ground arith, refl))

-- What a capture reads while the database refuses its row is never stored: when the database has
-- refused a chunk and then accepts every row of the later reads, the texts stored for the job grow
-- by what the runner wrote after that chunk, without the chunk. The log has at most 5000 lines where
-- the backend is tart, and no more than a mebibyte comes between two of the later reads.
pub refused_chunk_lost :
    (reader : Reader) (refusing accepting : Faults) (now : ℕ) (clock : ℕ → ℕ) (at : ℕ)
    (seen lost : Bytes) (chunks : List Bytes) (state : CaptureState) (s : JobStore)
    → IsRead reader ((seen ++ lost) ++ join chunks)
    → refusing inserts_log ≡ true
    → accepting inserts_log ≡ false
    → s.heap at ≡ some state
    → state.log_size ≡ length seen
    → AllShort chunks
    → let s' = capture_logs refusing now at (some (read_logs reader (seen ++ lost))) s in
      stored_text state.job_id
        (read_chunks reader accepting clock at (seen ++ lost) chunks s').db.job_logs
      ≡ stored_text state.job_id s.db.job_logs ++ join chunks
refused_chunk_lost reader refusing accepting now clock at seen lost chunks state s whole bad ok
      found size short =
    let read =
      read_logs_whole reader (seen ++ lost)
        (IsRead-append reader (seen ++ lost) (join chunks) whole) in
    let (found', same) = refused_chunk refusing now at seen lost state s bad found size in
    let s' = capture_logs refusing now at (some (seen ++ lost)) s in
    rw read (
      read_chunks_stores reader accepting clock at (seen ++ lost) chunks
        (record state { log_size = length (seen ++ lost) }) s' whole ok found' refl short
      ∙ ap (λ (db : Database). stored_text state.job_id db.job_logs ++ join chunks) same)
