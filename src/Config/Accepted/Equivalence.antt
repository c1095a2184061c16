-- ===== src/Config/Accepted/Equivalence.antt =====
-- config/config.go: Config.Validate accepts what IsAccepted describes.
use elastic_fruit_runner.Base.{
  ◌≡◌, ◌≢◌, ◌↔◌, inl, inr, true, false, String, none, [], ◌++◌, map, eq_iff, arith, Option-cases,
  ap, sym, subst, ◌∙◌,
}
use elastic_fruit_runner.Config.{Config, CloudConfig}
use elastic_fruit_runner.Config.Text.{to_lower}
use elastic_fruit_runner.Config.Cloud.{Platform, below, validate_cloud}
use elastic_fruit_runner.Config.Startup.{
  with_default_group, validate_orgs, validate_repos, has_targets, validate_mode, cors_error,
  is_log_level, validate,
}
use elastic_fruit_runner.Config.Cloud.{server_url_issues, cloud_issues, is_local_host}
use elastic_fruit_runner.Config.Accepted.{org_names, repo_names, IsEndpoint, IsSource, IsAccepted}
use elastic_fruit_runner.Config.Accepted.Names.{after, IsFresh-append, IsFresh-from_nothing}
use elastic_fruit_runner.Config.Accepted.Targets.{validate_orgs_iff, validate_repos_iff}

module _ (p : Platform) where
  server_url_issues_iff :
      (url : String) → (server_url_issues p url ≡ []) ↔ ((url ≢ "") × IsEndpoint (p.parse_url url))
  unfolding server_url_issues is_local_host
  server_url_issues_iff url = elim (Option-cases (p.parse_url url)) [
    | inl broken ↦ rw broken (ground (arith, eq_iff url ""))
    | inr (parsed, read) ↦ rw read (
        ground (
          arith,
          eq_iff url "",
          eq_iff parsed.scheme "",
          eq_iff parsed.host "",
          eq_iff parsed.scheme "https",
          eq_iff parsed.scheme "http",
          eq_iff "https" "",
          eq_iff "http" "",
          eq_iff parsed.hostname "localhost",
          eq_iff parsed.hostname "127.0.0.1",
        ))
  ]

  pub validate_cloud_iff :
      (cloud : CloudConfig)
      → (validate_cloud p cloud ≡ none) ↔ (
          (cloud.server_url ≢ "")
          × IsEndpoint (p.parse_url cloud.server_url)
          × (below cloud.max_runners 1 ≡ false))
  unfolding validate_cloud cloud_issues
  validate_cloud_iff cloud = ground (arith, server_url_issues_iff cloud.server_url)

  validate_mode_iff : (c : Config) → (validate_mode p c ≡ none) ↔ IsSource p c.cloud c.orgs c.repos
  unfolding validate_mode has_targets
  validate_mode_iff c = elim (Option-cases c.cloud) [
    | inl alone ↦ rw alone (ground arith)
    | inr (cloud, served) ↦ rw served (ground (arith, validate_cloud_iff cloud))
  ]

  -- The checks of Validate, one after the other, by whether each passes.
  validate_parts :
      (c : Config)
      → let (orgs', seen, error) = validate_orgs p 0 [] c.orgs in
        let (c', failed) = validate p c in
        ((failed ≡ none) ↔ (
          (validate_mode p c ≡ none)
          × (below c.idle_timeout 1 ≡ false)
          × (is_log_level (to_lower c.log_level) ≡ true)
          × (cors_error c.cors ≡ false)
          × (error ≡ none)
          × ((validate_repos p 0 seen c.repos).1 ≡ none)))
        × ((failed ≡ none) → c' ≡ record c { orgs = orgs' })
  unfolding validate
  validate_parts c = ground arith

  -- Config.Validate accepts a configuration just when it names one source of jobs, its idle timeout
  -- is positive, its log level is known, its CORS block is allowed, each org and repo is complete,
  -- and no two runner sets of all orgs and repos share a name. An accepted configuration comes back
  -- with the default group in the orgs that name none, and otherwise as it was.
  pub validate_iff :
      (c : Config)
      → (((validate p c).1 ≡ none) ↔ IsAccepted p c)
        × ((validate p c).1 ≡ none
            → (validate p c).0 ≡ record c { orgs = map with_default_group c.orgs })
  validate_iff c =
      let (parts, result) = validate_parts c in
      let (orgs, same) = validate_orgs_iff p 0 [] c.orgs in
      let seen = after [] (org_names c.orgs) in
      let repos = validate_repos_iff p 0 seen c.repos in
      let source = validate_mode_iff c in
      let fresh = IsFresh-append [] (org_names c.orgs) (repo_names c.repos) in
      let differ = IsFresh-from_nothing (org_names c.orgs ++ repo_names c.repos) in
      (
        (
          λ h.
              let q = parts.0 h in
              let a = orgs.0 q.4 in
              let b =
                repos.0 (subst (λ s. (validate_repos p 0 s c.repos).1 ≡ none) (same q.4).0 q.5) in
              (source.0 q.0, q.1, q.2, q.3, a.0, b.0, differ.0 (fresh.1 (a.1, b.1))),
          λ v.
              let f = fresh.0 (differ.1 v.6) in
              let fine = orgs.1 (v.4, f.0) in
              parts.1 (
                source.1 v.0,
                v.1,
                v.2,
                v.3,
                fine,
                subst (λ s. (validate_repos p 0 s c.repos).1 ≡ none) (sym (same fine).0)
                    (repos.1 (v.5, f.1)),
              ),
        ),
        λ h. result h ∙ ap (λ os. record c { orgs = os }) (same (parts.0 h).4).1,
      )
