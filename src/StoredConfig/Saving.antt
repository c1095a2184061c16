-- ===== src/StoredConfig/Saving.antt =====
-- internal/configstate/storage.go: what a Save leaves on disk, in the table and in the snapshot.
use elastic_fruit_runner.Base.{
  ℕ, ◌≡◌, ◌≢◌, refl, sym, subst, append_text, true, false, String, Option, none, some, List, [],
  ◌∷◌, ◌⊎◌, inl, inr, arith, ◌==◌, Option-cases, Bool-cases, outcome, is_some, if◌then◌else◌,
}
use elastic_fruit_runner.Config.Yaml.{ValidationResult, validate_yaml}
use elastic_fruit_runner.StoredConfig.Texts.{merge_masked_secrets}
use elastic_fruit_runner.StoredConfig.{
  in_sync, restart_required, Service, Library, Faults, refreshed, refresh, safe_validation,
  first_failure, save_revision, write_calls, store_text, save_merged, save, current_text,
  makes_directory, permits_file,
}

-- The file holds a text without problems. After an error nothing else has changed; without one, the
-- snapshot is that of the new file, which the next start can load.
abbrev pub IsStored : Library → Service → String → Service → Option String → Type 0
IsStored l s merged s' error =
    ((validate_yaml l.platform l.yaml merged).errors ≡ [])
    × (s'.disk ≡ some merged)
    × (((is_some error ≡ true) × (s'.revisions ≡ s.revisions) × (s'.snapshot ≡ s.snapshot))
        ⊎ ((error ≡ none)
            × (s'.snapshot ≡ refreshed l s')
            × (s'.snapshot.state
                ≡ (if l.hash merged == s.active_hash then in_sync else restart_required))))

List-cases {ℓ} :
    {A : Type ℓ} (xs : List A) → (xs ≡ []) ⊎ ((x : A) × (rest : List A) × (xs ≡ x ∷ rest))
List-cases [] = inl refl
List-cases (x ∷ xs) = inr (x, xs, refl)

-- Nothing has changed, and there is an error or an issue; or the file is stored.
abbrev IsOutcome : Library → Service → String → Service × ValidationResult × Option String → Type 0
IsOutcome l s merged o =
    ((o.0 ≡ s) × ((is_some o.2 ≡ true) ⊎ (o.1.errors ≢ []))) ⊎ IsStored l s merged o.0 o.2

module _ (l : Library) (fails : Faults) (source : String) (now : ℕ) where
  store_text-IsOutcome :
      (merged : String) (result : ValidationResult) (s : Service)
      → (validate_yaml l.platform l.yaml merged).errors ≡ []
      → (s.path == "") ≡ false
      → IsOutcome l s merged (store_text l fails merged source now result s)
  unfolding store_text refresh refreshed
  store_text-IsOutcome merged result s valid full =
      let replaced = record s { disk = some merged } in
      let result_of = store_text l fails merged source now result s in
      let saved = save_revision l fails merged source false now s.revisions in
      let refused : (r : ValidationResult) (e : String)
          → result_of ≡ (s, r, some e)
          → IsOutcome l s merged result_of =
        λ r e same. subst (IsOutcome l s merged) (sym same) (inl (refl, inl refl)) in
      let half : (e : String)
          → result_of ≡ (replaced, result, some e)
          → IsOutcome l s merged result_of =
        λ e same.
          subst (IsOutcome l s merged) (sym same) (inr (valid, refl, inl (refl, refl, refl))) in
      elim (Option-cases
        (first_failure fails ((makes_directory, "create config directory") ∷ []))) [
          | inr (error, failed) ↦ refused (safe_validation l result) error (ground (arith, failed))
          | inl made ↦ elim (Option-cases (first_failure fails (write_calls s.path))) [
            | inr (error, failed) ↦ refused result error (ground (arith, made, failed))
            | inl written ↦
                elim (Option-cases (
                  first_failure fails
                    ((permits_file, append_text "set config file permissions " s.path) ∷ []))) [
                      | inr (error, failed) ↦ half error (ground (arith, made, written, failed))
                      | inl permitted ↦ elim (Option-cases saved.1) [
                        | inr (error, failed) ↦
                            half error (ground (arith, made, written, permitted, failed))
                        | inl recorded ↦
                            let done : result_of ≡ (
                              refresh l (record replaced { revisions = saved.0 }),
                              safe_validation l result,
                              none,
                            ) =
                              ground (arith, made, written, permitted, recorded) in
                            subst (IsOutcome l s merged) (sym done)
                              (inr (valid, refl, inr (refl, refl, ground (arith, full, valid))))
                      ]
                    ]
          ]
        ]

  save_merged-IsOutcome :
      (merged : String) (s : Service)
      → IsOutcome l s merged (save_merged l fails merged source now s)
  unfolding save_merged safe_validation
  save_merged-IsOutcome merged s =
      let result = validate_yaml l.platform l.yaml merged in
      let saved = save_merged l fails merged source now s in
      elim (List-cases result.errors) [
        | inr (issue, issues, found) ↦
            let same : saved ≡ (s, safe_validation l result, none) = ground (arith, found) in
            subst (IsOutcome l s merged) (sym same)
              (inl (refl, inr (λ e. ground (arith, found, e))))
        | inl valid ↦ elim (Bool-cases (s.path == "")) [
          | inl nowhere ↦
              let same : saved ≡ (s, result, some "config file path is not set") =
                ground (arith, valid, nowhere) in
              subst (IsOutcome l s merged) (sym same) (inl (refl, inl refl))
          | inr full ↦
              let same : saved ≡ store_text l fails merged source now result s =
                ground (arith, valid, full) in
              subst (IsOutcome l s merged) (sym same)
                (store_text-IsOutcome merged result s valid full)
        ]
      ]

  -- A Save leaves everything as it was, with an error or with the issues of the draft; or the file
  -- on disk holds the draft merged with the old file's tokens, which ValidateYAML accepts. In the
  -- second case a later error leaves revisions and snapshot as they were, and without one the
  -- snapshot tells whether the new file is what runs.
  pub save_lem :
      (draft : String) (s : Service)
      → let o = save l fails draft source now s in
        ((o.0 ≡ s) × ((is_some o.2 ≡ true) ⊎ (o.1.errors ≢ [])))
        ⊎ ((merged : String) × (merge_masked_secrets l.documents draft (current_text s)
              ≡ inr merged)
            × IsStored l s merged o.0 o.2)
  unfolding save
  save_lem draft s = elim (outcome (merge_masked_secrets l.documents draft (current_text s))) [
    | inl (error, failed) ↦ inl (ground (arith, failed), inl (ground (arith, failed)))
    | inr (merged, done) ↦
        let same : save l fails draft source now s ≡ save_merged l fails merged source now s =
          ground (arith, done) in
        elim (subst (IsOutcome l s merged) (sym same) (save_merged-IsOutcome merged s)) [
          | inl nothing ↦ inl nothing
          | inr stored ↦ inr (merged, done, stored)
        ]
  ]
