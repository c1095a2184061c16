-- ===== src/Config/Accepted/Strictness.antt =====
-- config/validation.go and config/load.go: what ValidateConfig and Load let through, Config.Validate
-- accepts.
use mathlib.Core.List.{◌++◌ as append}
use elastic_fruit_runner.Base.{
  ◌≡◌, inl, inr, refl, true, false, none, [], ◌++◌, map, arith, contains, Option-cases, ap, sym,
  ◌∙◌, lookup,
}
use elastic_fruit_runner.Config.{Config, CloudConfig}
use elastic_fruit_runner.Config.Text.{to_lower}
use elastic_fruit_runner.Config.Cloud.{Platform, below, cloud_issues}
use elastic_fruit_runner.Config.Startup.{
  has_targets, with_default_group, cors_error, is_log_level, validate,
}
use elastic_fruit_runner.Config.Settings.{settings_issues, field_issues, mode_issues}
use elastic_fruit_runner.Config.Targets.{orgs_issues, repos_issues}
use elastic_fruit_runner.Config.Accepted.{org_names, repo_names, IsSource, IsAccepted}
use elastic_fruit_runner.Config.Accepted.Names.{after, IsFresh-append, IsFresh-from_nothing}
use elastic_fruit_runner.Config.Settings.{cors_issues, validate_writable_path}
use elastic_fruit_runner.Config.{parsed_log_level}
use elastic_fruit_runner.Config.Cloud.{validate_cloud}
use elastic_fruit_runner.Config.Yaml.{validate_config}
use elastic_fruit_runner.Config.Accepted.Agreement.{
  parts_none, orgs_issues-IsFresh, repos_issues-IsFresh, orgs_issues-orgs,
}
use elastic_fruit_runner.Config.Accepted.Equivalence.{validate_cloud_iff, validate_iff}

module _ (p : Platform) where
  cloud_none : (cloud : CloudConfig) → cloud_issues p cloud ≡ [] → validate_cloud p cloud ≡ none
  unfolding validate_cloud
  cloud_none cloud h = ground (arith, h)

  mode_issues-IsSource : (c : Config) → mode_issues p c ≡ [] → IsSource p c.cloud c.orgs c.repos
  unfolding mode_issues has_targets
  mode_issues-IsSource c h = elim (Option-cases c.cloud) [
    | inl alone ↦ rw alone (ground (arith, h, alone))
    | inr (cloud, served) ↦
        rw served (ground (arith, h, served, cloud_none cloud, validate_cloud_iff p cloud))
  ]

  field_issues-fields :
      (c : Config)
      → field_issues p c ≡ []
      → (below c.idle_timeout 1 ≡ false)
        × (is_log_level (to_lower c.log_level) ≡ true)
        × (cors_error c.cors ≡ false)
  unfolding field_issues parsed_log_level is_log_level
  field_issues-fields c h = ground (arith, h)

  settings_issues_none :
      (c : Config)
      → settings_issues p c ≡ []
      → IsSource p c.cloud c.orgs c.repos
        × (below c.idle_timeout 1 ≡ false)
        × (is_log_level (to_lower c.log_level) ≡ true)
        × (cors_error c.cors ≡ false)
  unfolding settings_issues
  settings_issues_none c h =
      let rest = append (cors_issues c.cors) (
        append (validate_writable_path p c.db_path "db_path")
          (validate_writable_path p c.log_path "log_path")) in
      let (a, b) = parts_none (mode_issues p c) (append (field_issues p c) rest) h in
      let (d, e) = parts_none (field_issues p c) rest b in
      let (timeout, level, cors) = field_issues-fields c d in
      (mode_issues-IsSource c a, timeout, level, cors)

  pub validate_config-IsAccepted :
      (c : Config) → (validate_config p c).1.errors ≡ [] → IsAccepted p c
  unfolding validate_config lookup contains
  validate_config-IsAccepted c h =
      let in_orgs = orgs_issues p 0 [] c.orgs in
      let in_repos = repos_issues p 0 in_orgs.1 c.repos in
      let (a, b) = parts_none (settings_issues p c) (append in_orgs.2 in_repos.1) h in
      let (d, e) = parts_none in_orgs.2 in_repos.1 b in
      let (source, timeout, level, cors) = settings_issues_none c a in
      let (orgs, fresh, agreed) = orgs_issues-IsFresh p 0 [] [] c.orgs (λ k. refl) d in
      let (repos, fresh_repos) =
        repos_issues-IsFresh p 0 in_orgs.1 (after [] (org_names c.orgs)) c.repos agreed e in
      (
        source,
        timeout,
        level,
        cors,
        orgs,
        repos,
        (IsFresh-from_nothing (org_names c.orgs ++ repo_names c.repos)).0
            ((IsFresh-append [] (org_names c.orgs) (repo_names c.repos)).1 (fresh, fresh_repos)),
      )

  pub validate_config-config :
      (c : Config) → (validate_config p c).0 ≡ record c { orgs = map with_default_group c.orgs }
  unfolding validate_config
  validate_config-config c = ap (λ os. record c { orgs = os }) (orgs_issues-orgs p 0 [] c.orgs)

  -- A configuration in which ValidateConfig finds no problem passes Config.Validate, and both fill
  -- the same defaults in.
  pub validate_config-validate :
      (c : Config)
      → (validate_config p c).1.errors ≡ []
      → validate p c ≡ ((validate_config p c).0, none)
  validate_config-validate c h =
      let (accepted, result) = validate_iff p c in
      let fine = accepted.1 (validate_config-IsAccepted c h) in
      let same = result fine ∙ sym (validate_config-config c) in
      rw (sym same) (ap (λ e. ((validate p c).0, e)) fine)
