-- ===== src/Config/Accepted/Targets.antt =====
-- config/config.go: validateOrg and validateRepo, and the loops over the orgs and the repos.
use elastic_fruit_runner.Base.{
  ℕ, ◌+◌, ◌≡◌, ◌≢◌, ◌↔◌, inl, inr, refl, true, String, append_text, none, List, [], ◌∷◌, map, ◌==◌,
  eq_iff, arith, Bool-cases, Option-cases, ap, sym, ◌∙◌,
}
use elastic_fruit_runner.Config.{OrgConfig, RepoConfig}
use elastic_fruit_runner.Config.Text.{
  split_n, two_words, two_words-split_n, two_words-nothing, itoa,
}
use elastic_fruit_runner.Config.Cloud.{Platform}
use elastic_fruit_runner.Config.Startup.{
  validate_auth, validate_runner_sets, with_default_group, validate_org, validate_repo,
  validate_orgs, validate_repos,
}
use elastic_fruit_runner.Config.Accepted.{All, name_of, org_names, repo_names, IsOrg, IsRepo}
use elastic_fruit_runner.Config.Accepted.Names.{IsFresh, after, IsFresh-append, after-append}
use elastic_fruit_runner.Config.Accepted.RunnerSets.{
  validate_auth_iff, validate_runner_sets_iff, validate_runner_sets_seen,
}

module _ (p : Platform) where
  validate_org_parts :
      (i : ℕ) (seen : List String) (org : OrgConfig)
      → let prefix = append_text "orgs[" (append_text (itoa i) "]") in
        let sets = validate_runner_sets p prefix 0 seen org.runner_sets in
        let (org', seen', error) = validate_org p i seen org in
        ((error ≡ none) ↔ (
          (org.org ≢ "")
          × (validate_auth prefix org.auth ≡ none)
          × (org.runner_sets ≢ [])
          × (sets.1 ≡ none)))
        × ((error ≡ none) → (seen' ≡ sets.0) × (org' ≡ with_default_group org))
  unfolding validate_org
  validate_org_parts i seen org = ground (arith, eq_iff org.org "")

  validate_org_iff :
      (i : ℕ) (seen : List String) (org : OrgConfig)
      → let (org', seen', error) = validate_org p i seen org in
        let names = map name_of org.runner_sets in
        ((error ≡ none) ↔ (IsOrg org × IsFresh seen names))
        × ((error ≡ none) → (seen' ≡ after seen names) × (org' ≡ with_default_group org))
  validate_org_iff i seen org =
      let prefix = append_text "orgs[" (append_text (itoa i) "]") in
      let auth = validate_auth_iff prefix org.auth in
      let sets = validate_runner_sets_iff p prefix 0 seen org.runner_sets in
      let seen' = validate_runner_sets_seen p prefix 0 seen org.runner_sets in
      let (parts, same) = validate_org_parts i seen org in
      (
        (
          λ h. let q = parts.0 h in let r = sets.0 q.3 in ((q.0, (auth.0 q.1, q.2, r.0)), r.1),
          λ v. parts.1 (v.0.0, auth.1 v.0.1.0, v.0.1.1, sets.1 (v.0.1.2, v.1)),
        ),
        λ h. ((same h).0 ∙ seen' (parts.0 h).3, (same h).1),
      )

  validate_repo_parts :
      (i : ℕ) (seen : List String) (repo : RepoConfig)
      → let prefix = append_text "repos[" (append_text (itoa i) "]") in
        let sets = validate_runner_sets p prefix 0 seen repo.runner_sets in
        let (seen', error) = validate_repo p i seen repo in
        ((error ≡ none) ↔ (
          (two_words (split_n 47 3 repo.repo) ≡ true)
          × (validate_auth prefix repo.auth ≡ none)
          × (repo.runner_sets ≢ [])
          × (sets.1 ≡ none)))
        × ((error ≡ none) → seen' ≡ sets.0)
  unfolding validate_repo
  validate_repo_parts i seen repo = elim (Bool-cases (repo.repo == "")) [
    | inl empty ↦
        let same = (eq_iff repo.repo "").0 empty in
        let none_of = ap (λ s. two_words (split_n 47 3 s)) same ∙ two_words-nothing 47 in
        ground (arith, empty, none_of)
    | inr full ↦ ground (arith, full)
  ]

  validate_repo_iff :
      (i : ℕ) (seen : List String) (repo : RepoConfig)
      → let (seen', error) = validate_repo p i seen repo in
        let names = map name_of repo.runner_sets in
        ((error ≡ none) ↔ (IsRepo repo × IsFresh seen names))
        × ((error ≡ none) → seen' ≡ after seen names)
  validate_repo_iff i seen repo =
      let prefix = append_text "repos[" (append_text (itoa i) "]") in
      let auth = validate_auth_iff prefix repo.auth in
      let words = two_words-split_n 47 repo.repo in
      let sets = validate_runner_sets_iff p prefix 0 seen repo.runner_sets in
      let seen' = validate_runner_sets_seen p prefix 0 seen repo.runner_sets in
      let (parts, same) = validate_repo_parts i seen repo in
      (
        (
          λ h.
              let q = parts.0 h in
              let r = sets.0 q.3 in ((sym words ∙ q.0, (auth.0 q.1, q.2, r.0)), r.1),
          λ v. parts.1 (words ∙ v.0.0, auth.1 v.0.1.0, v.0.1.1, sets.1 (v.0.1.2, v.1)),
        ),
        λ h. same h ∙ seen' (parts.0 h).3,
      )

  -- One round of the loops over the orgs and the repos.
  validate_orgs-cons :
      (i : ℕ) (seen : List String) (org : OrgConfig) (orgs : List OrgConfig)
      → let names = after seen (map name_of org.runner_sets) in
        let all = validate_orgs p i seen (org ∷ orgs) in
        let rest = validate_orgs p (i + 1) names orgs in
        ((all.2 ≡ none) ↔ (((validate_org p i seen org).2 ≡ none) × (rest.2 ≡ none)))
        × ((all.2 ≡ none) → (all.1 ≡ rest.1) × (all.0 ≡ with_default_group org ∷ rest.0))
  unfolding validate_orgs
  validate_orgs-cons i seen org orgs = elim (Option-cases (validate_org p i seen org).2) [
    | inl fine ↦
        let same = (validate_org_iff i seen org).1 fine in rw (same.0) (rw (same.1) (ground arith))
    | inr (message, wrong) ↦ ground arith
  ]

  validate_repos-cons :
      (i : ℕ) (seen : List String) (repo : RepoConfig) (repos : List RepoConfig)
      → let names = after seen (map name_of repo.runner_sets) in
        let all = validate_repos p i seen (repo ∷ repos) in
        let rest = validate_repos p (i + 1) names repos in
        (all.1 ≡ none) ↔ (((validate_repo p i seen repo).1 ≡ none) × (rest.1 ≡ none))
  unfolding validate_repos
  validate_repos-cons i seen repo repos = elim (Option-cases (validate_repo p i seen repo).1) [
    | inl fine ↦ rw ((validate_repo_iff i seen repo).1 fine) (ground arith)
    | inr (message, wrong) ↦ ground arith
  ]

  pub validate_orgs_iff :
      (i : ℕ) (seen : List String) (orgs : List OrgConfig)
      → let (orgs', seen', error) = validate_orgs p i seen orgs in
        ((error ≡ none) ↔ (All IsOrg orgs × IsFresh seen (org_names orgs)))
        × ((error ≡ none)
            → (seen' ≡ after seen (org_names orgs)) × (orgs' ≡ map with_default_group orgs))
  unfolding validate_orgs
  validate_orgs_iff i seen [] = ((λ h. (tt, tt), λ h. refl), λ h. (refl, refl))
  validate_orgs_iff i seen (org ∷ orgs) =
      let names = map name_of org.runner_sets in
      let this = (validate_org_iff i seen org).0 in
      let (later, same) = validate_orgs_iff (i + 1) (after seen names) orgs in
      let (parts, round) = validate_orgs-cons i seen org orgs in
      let fresh = IsFresh-append seen names (org_names orgs) in
      (
        (
          λ h.
              let a = this.0 (parts.0 h).0 in
              let b = later.0 (parts.0 h).1 in ((a.0, b.0), fresh.1 (a.1, b.1)),
          λ v. let f = fresh.0 v.1 in parts.1 (this.1 (v.0.0, f.0), later.1 (v.0.1, f.1)),
        ),
        λ h.
            let s = same (parts.0 h).1 in
            (
              (round h).0 ∙ s.0 ∙ sym (after-append seen names (org_names orgs)),
              (round h).1 ∙ ap (λ os. with_default_group org ∷ os) s.1,
            ),
      )

  pub validate_repos_iff :
      (i : ℕ) (seen : List String) (repos : List RepoConfig)
      → ((validate_repos p i seen repos).1 ≡ none)
        ↔ (All IsRepo repos × IsFresh seen (repo_names repos))
  unfolding validate_repos
  validate_repos_iff i seen [] = (λ h. (tt, tt), λ h. refl)
  validate_repos_iff i seen (repo ∷ repos) =
      let names = map name_of repo.runner_sets in
      let this = (validate_repo_iff i seen repo).0 in
      let later = validate_repos_iff (i + 1) (after seen names) repos in
      let parts = validate_repos-cons i seen repo repos in
      let fresh = IsFresh-append seen names (repo_names repos) in
      (
        λ h.
            let a = this.0 (parts.0 h).0 in
            let b = later.0 (parts.0 h).1 in ((a.0, b.0), fresh.1 (a.1, b.1)),
        λ v. let f = fresh.0 v.1 in parts.1 (this.1 (v.0.0, f.0), later.1 (v.0.1, f.1)),
      )
