-- ===== src/Config/Accepted/RunnerSets.antt =====
-- config/config.go: validateAuth and validateRunnerSet, and the loop over the runner sets.
use elastic_fruit_runner.Base.{
  ℕ, ◌+◌, ℤ, pos, negsuc, ◌≡◌, ◌↔◌, ◌⊎◌, inl, inr, refl, true, false, String, append_text, Option,
  none, some, List, [], ◌∷◌, map, eq_iff, arith, contains, Option-cases, ◌∙◌,
}
use elastic_fruit_runner.Config.{AuthConfig, GitHubAppConfig, RunnerSetConfig}
use elastic_fruit_runner.Config.Text.{itoa}
use elastic_fruit_runner.Config.Cloud.{Platform, below}
use elastic_fruit_runner.Config.Startup.{
  is_single_word, is_zero, auth_error, validate_auth, runner_set_error, validate_runner_set,
  validate_runner_sets,
}
use elastic_fruit_runner.Config.Accepted.{IsRunnerSet, IsCredential, All, name_of}
use elastic_fruit_runner.Config.Accepted.Names.{IsFresh, after}

pub runner_set_error_iff :
    (p : Platform) (prefix : String) (rs : RunnerSetConfig)
    → (runner_set_error p prefix rs ≡ none) ↔ (
        ((rs.backend ≡ "docker") ⊎ ((rs.backend ≡ "tart") × (rs.runtime ≡ "")))
        × (below rs.max_runners 1 ≡ false)
        × (is_single_word rs.runtime ≡ true))
unfolding runner_set_error
runner_set_error_iff p prefix rs = ground (
  arith,
  eq_iff rs.backend "tart",
  eq_iff rs.backend "docker",
  eq_iff rs.backend "",
  eq_iff "docker" "tart",
  eq_iff "docker" "",
  eq_iff "tart" "",
  eq_iff rs.runtime "",
)

is_zero_iff : (n : ℤ) → (is_zero n ≡ true) ↔ (n ≡ pos 0)
is_zero_iff (pos n) = ground arith
is_zero_iff (negsuc n) = ground arith

auth_error_iff :
    (prefix : String) (token : Option String) (app : Option GitHubAppConfig)
    → (auth_error prefix token app ≡ none) ↔ IsCredential token app
unfolding auth_error
auth_error_iff prefix none none = ground arith
auth_error_iff prefix (some token) (some app) = ground arith
auth_error_iff prefix (some token) none = ground (arith, eq_iff token "")
auth_error_iff prefix none (some app) = ground (
  arith,
  eq_iff app.client_id "",
  eq_iff app.private_key_path "",
  is_zero_iff app.installation_id,
)

pub validate_auth_iff :
    (prefix : String) (auth : AuthConfig)
    → (validate_auth prefix auth ≡ none) ↔ IsCredential auth.pat_token auth.github_app
validate_auth_iff prefix auth = auth_error_iff prefix auth.pat_token auth.github_app

module _ (p : Platform) where
  validate_runner_set_iff :
      (prefix : String) (seen : List String) (rs : RunnerSetConfig)
      → ((validate_runner_set p prefix seen rs).1 ≡ none)
        ↔ (IsRunnerSet rs × (contains rs.name seen ≡ false))
  unfolding validate_runner_set
  validate_runner_set_iff prefix seen rs =
      ground (arith, eq_iff rs.name "", runner_set_error_iff p prefix rs)

  validate_runner_set_seen :
      (prefix : String) (seen : List String) (rs : RunnerSetConfig)
      → (validate_runner_set p prefix seen rs).1 ≡ none
      → (validate_runner_set p prefix seen rs).0 ≡ rs.name ∷ seen
  unfolding validate_runner_set
  validate_runner_set_seen prefix seen rs h = ground arith

  validate_runner_sets-cons :
      (prefix : String) (j : ℕ) (seen : List String) (rs : RunnerSetConfig)
      (sets : List RunnerSetConfig)
      → let place = append_text prefix (append_text ".runner_sets[" (append_text (itoa j) "]")) in
        let all = validate_runner_sets p prefix j seen (rs ∷ sets) in
        let rest = validate_runner_sets p prefix (j + 1) (rs.name ∷ seen) sets in
        ((all.1 ≡ none) ↔ (((validate_runner_set p place seen rs).1 ≡ none) × (rest.1 ≡ none)))
        × ((all.1 ≡ none) → all.0 ≡ rest.0)
  unfolding validate_runner_sets
  validate_runner_sets-cons prefix j seen rs sets =
      let place = append_text prefix (append_text ".runner_sets[" (append_text (itoa j) "]")) in
      let same = validate_runner_set_seen place seen rs in
      elim (Option-cases (validate_runner_set p place seen rs).1) [
        | inl fine ↦ rw (same fine) (ground arith)
        | inr (message, wrong) ↦ ground arith
      ]

  pub validate_runner_sets_iff :
      (prefix : String) (j : ℕ) (seen : List String) (sets : List RunnerSetConfig)
      → ((validate_runner_sets p prefix j seen sets).1 ≡ none)
        ↔ (All IsRunnerSet sets × IsFresh seen (map name_of sets))
  unfolding validate_runner_sets
  validate_runner_sets_iff prefix j seen [] = (λ h. (tt, tt), λ h. refl)
  validate_runner_sets_iff prefix j seen (rs ∷ sets) =
      let place = append_text prefix (append_text ".runner_sets[" (append_text (itoa j) "]")) in
      let this = validate_runner_set_iff place seen rs in
      let later = validate_runner_sets_iff prefix (j + 1) (rs.name ∷ seen) sets in
      let parts = (validate_runner_sets-cons prefix j seen rs sets).0 in
      (
        λ h.
            let (one, others) = parts.0 h in
            ((((this.0 one).0), (later.0 others).0), ((this.0 one).1, (later.0 others).1)),
        λ v. parts.1 (this.1 (v.0.0, v.1.0), later.1 (v.0.1, v.1.1)),
      )

  pub validate_runner_sets_seen :
      (prefix : String) (j : ℕ) (seen : List String) (sets : List RunnerSetConfig)
      → (validate_runner_sets p prefix j seen sets).1 ≡ none
      → (validate_runner_sets p prefix j seen sets).0 ≡ after seen (map name_of sets)
  unfolding validate_runner_sets
  validate_runner_sets_seen prefix j seen [] h = refl
  validate_runner_sets_seen prefix j seen (rs ∷ sets) h =
      let (parts, same) = validate_runner_sets-cons prefix j seen rs sets in
      same h ∙ validate_runner_sets_seen prefix (j + 1) (rs.name ∷ seen) sets (parts.0 h).1
