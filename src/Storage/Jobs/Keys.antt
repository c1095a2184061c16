-- ===== src/Storage/Jobs/Keys.antt =====
-- queries.sql, RenameRunningJob: job ids stay distinct.
use elastic_fruit_runner.Base.{
  ◌≡◌, ◌≢◌, refl, sym, subst, String, none, List, [], ◌∷◌, arith, eq_iff, ◌==◌, Bool-cases, inl,
  inr,
}
use elastic_fruit_runner.Storage.Jobs.{Job, find_job, update_where, is_running}
use elastic_fruit_runner.Storage.Jobs.Rows.{IsKeyed, renamed}

module _ (new_id old_id : String) where
  abbrev rename : List Job → List Job
  rename rows = (update_where is_running (renamed new_id) old_id rows).0

  rename_absent : (rows : List Job) → find_job old_id rows ≡ none → rename rows ≡ rows
  unfolding find_job update_where
  rename_absent [] h = refl
  rename_absent (r ∷ rows) h = ground (arith, rename_absent rows)

  find_job-rename_lem :
      (k : String) (rows : List Job)
      → k ≢ new_id
      → find_job k rows ≡ none
      → find_job k (rename rows) ≡ none
  unfolding find_job update_where
  find_job-rename_lem k [] n h = refl
  find_job-rename_lem k (r ∷ rows) n h =
      ground (arith, find_job-rename_lem k rows n, eq_iff new_id k)

  pub rename-IsKeyed :
      (rows : List Job)
      → IsKeyed rows
      → (new_id ≢ old_id → find_job new_id rows ≡ none)
      → IsKeyed (rename rows)
  unfolding find_job update_where
  rename-IsKeyed [] k free = tt
  rename-IsKeyed (r ∷ rows) k free = elim (Bool-cases (r.id == old_id)) [
    | inl same ↦
        let absent : find_job old_id rows ≡ none = ground (arith, eq_iff r.id old_id) in
        let rest = rename_absent rows absent in
        let free' : find_job new_id rows ≡ none = elim (Bool-cases (new_id == old_id)) [
          | inl e ↦ ground (arith, eq_iff new_id old_id)
          | inr n ↦ ground (arith, free (λ e. ground (arith, eq_iff new_id old_id)))
        ] in
        elim (Bool-cases (is_running r)) [
          | inl runs ↦
              let shape : rename (r ∷ rows) ≡ renamed new_id r ∷ rows = ground arith in
              subst IsKeyed (sym shape) (ground arith, k.1)
          | inr stopped ↦
              let shape : rename (r ∷ rows) ≡ r ∷ rows = ground arith in subst IsKeyed (sym shape) k
        ]
    | inr other ↦
        let apart : r.id ≢ new_id = λ e. elim (Bool-cases (new_id == old_id)) [
          | inl e' ↦ ground (arith, eq_iff new_id old_id, eq_iff r.id old_id)
          | inr n ↦
              ground (arith, free (λ e'. ground (arith, eq_iff new_id old_id)), eq_iff r.id new_id)
        ] in
        let shape : rename (r ∷ rows) ≡ r ∷ rename rows = ground arith in
        subst IsKeyed (sym shape) (
          ground (arith, find_job-rename_lem r.id rows apart),
          rename-IsKeyed rows k.1 (λ n. ground (arith, free n)),
        )
  ]
