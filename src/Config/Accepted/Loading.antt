-- ===== src/Config/Accepted/Loading.antt =====
-- config/load.go: a configuration that Load took from a file, against the check before the daemon
-- starts.
use mathlib.Core.List.{◌++◌ as append}
use elastic_fruit_runner.Base.{
  outcome, ◌≡◌, ◌≢◌, ◌⊎◌, inl, inr, refl, true, String, Option, none, some, List, [], ◌∷◌, ◌++◌,
  map, ◌==◌, arith, AllDifferent, Bool-cases, ap, sym, subst, ◌∙◌,
}
use elastic_fruit_runner.Config.{Config, OrgConfig, RepoConfig, CloudConfig}
use elastic_fruit_runner.Config.Text.{to_lower}
use elastic_fruit_runner.Config.Cloud.{Platform, ValidationIssue}
use elastic_fruit_runner.Config.Startup.{with_default_group, is_log_level, validate}
use elastic_fruit_runner.Config.Accepted.{
  IsOrg, All, name_of, org_names, repo_names, IsSource, IsAccepted,
}
use elastic_fruit_runner.Config.Yaml.{
  Yaml, NextDocument, broken, another_document, end_of_file, RawConfig, config_of, document_result,
  validate_document, validate_yaml, Loader, loaded_config, load_text, load_file, load,
}
use elastic_fruit_runner.Config.Accepted.Equivalence.{validate_iff}
use elastic_fruit_runner.Config.Accepted.Strictness.{
  validate_config-IsAccepted, validate_config-config,
}

with_default_group_again :
    (org : OrgConfig) → with_default_group (with_default_group org) ≡ with_default_group org
unfolding with_default_group
with_default_group_again org = ground arith

defaults_again :
    (orgs : List OrgConfig)
    → map with_default_group (map with_default_group orgs) ≡ map with_default_group orgs
defaults_again [] = refl
defaults_again (org ∷ orgs) = rw (with_default_group_again org) (rw (defaults_again orgs) refl)

-- Nothing that is checked of an org is its runner group.
with_default_group_keeps :
    (org : OrgConfig)
    → let org' = with_default_group org in
      (org'.org ≡ org.org) × (org'.auth ≡ org.auth) × (org'.runner_sets ≡ org.runner_sets)
unfolding with_default_group
with_default_group_keeps org = ground arith

with_default_group-IsOrg : (org : OrgConfig) → IsOrg org → IsOrg (with_default_group org)
unfolding with_default_group
with_default_group-IsOrg org h = elim (Bool-cases (org.runner_group == "")) [
  | inl unnamed ↦ rw unnamed h
  | inr named ↦ rw named h
]

defaults-IsOrg : (orgs : List OrgConfig) → All IsOrg orgs → All IsOrg (map with_default_group orgs)
defaults-IsOrg [] h = tt
defaults-IsOrg (org ∷ orgs) h = (with_default_group-IsOrg org h.0, defaults-IsOrg orgs h.1)

defaults-org_names :
    (orgs : List OrgConfig) → org_names (map with_default_group orgs) ≡ org_names orgs
defaults-org_names [] = refl
defaults-org_names (org ∷ orgs) =
    rw ((with_default_group_keeps org).2)
      (ap (λ ns. map name_of org.runner_sets ++ ns) (defaults-org_names orgs))

map-nonempty {ℓ κ} : {A : Type ℓ} {B : Type κ} (f : A → B) (xs : List A) → xs ≢ [] → map f xs ≢ []
map-nonempty f [] h e = h refl
map-nonempty f (x ∷ xs) h e = ground (arith, e)

abbrev or_else {ℓ κ} : {A : Type ℓ} {B : Type κ} → B → A ⊎ B → B
or_else b (inl a) = b
or_else b (inr c) = c

abbrev value_or {ℓ} : {A : Type ℓ} → A → Option A → A
value_or a none = a
value_or a (some b) = b

-- What Load sets in the configuration of a file.
abbrev with_file : Config → String → String → String → Config → Config
with_file v path hash text c = record c {
  log_level = v.log_level;
  file_path = path;
  loaded_hash = hash;
  loaded_yaml = text;
}

module _ (p : Platform) where
  abbrev defaulted : Config → Config
  defaulted c = record c { orgs = map with_default_group c.orgs }

  defaults-IsSource :
      (cloud : Option CloudConfig) (orgs : List OrgConfig) (repos : List RepoConfig)
      → IsSource p cloud orgs repos
      → IsSource p cloud (map with_default_group orgs) repos
  defaults-IsSource none orgs repos (inl targets) =
      inl (map-nonempty with_default_group orgs targets)
  defaults-IsSource none orgs repos (inr targets) = inr targets
  defaults-IsSource (some cloud) orgs repos h =
      (ap (map with_default_group) h.0, h.1, h.2, h.3, h.4)

  defaults-IsAccepted : (c : Config) → IsAccepted p c → IsAccepted p (defaulted c)
  defaults-IsAccepted c h = (
    defaults-IsSource c.cloud c.orgs c.repos h.0,
    h.1,
    h.2,
    h.3,
    defaults-IsOrg c.orgs h.4,
    h.5,
    subst (λ ns. AllDifferent (ns ++ repo_names c.repos)) (sym (defaults-org_names c.orgs)) h.6,
  )

  -- What Validate accepts it accepts again, without a change.
  pub defaulted-validate :
      (c : Config) → IsAccepted p c → validate p (defaulted c) ≡ (defaulted c, none)
  defaulted-validate c h =
      let (accepted, result) = validate_iff p (defaulted c) in
      let fine = accepted.1 (defaults-IsAccepted c h) in
      let same = result fine ∙ ap (λ os. record c { orgs = os }) (defaults_again c.orgs) in
      λ i. (same i, fine i)

  -- Without errors, ValidateYAML answers the configuration of the one document, with its defaults.
  document_result-IsAccepted :
      (y : Yaml) (decoded : String ⊎ RawConfig) (next : NextDocument)
      → (document_result p y decoded next).errors ≡ []
      → (c : Config) × ((document_result p y decoded next).config ≡ some (defaulted c))
        × IsAccepted p c
  unfolding document_result validate_document
  document_result-IsAccepted y (inl error) next h = ground (arith, h)
  document_result-IsAccepted y (inr raw) (broken error) h = ground (arith, h)
  document_result-IsAccepted y (inr raw) another_document h = ground (arith, h)
  document_result-IsAccepted y (inr raw) end_of_file h =
      let c = config_of raw in
      (c, ap some (validate_config-config p c), validate_config-IsAccepted p c h)

  -- The log level of the environment replaces that of the file.
  loaded_config-validate :
      (y : Yaml) (l : Loader) (path text : String) (v c : Config) (issues : List ValidationIssue)
      (found : Option Config)
      → (issues ≡ [] → (d : Config) × (found ≡ some (defaulted d)) × IsAccepted p d)
      → loaded_config l path v text issues found ≡ inr c
      → is_log_level (to_lower c.log_level) ≡ true
      → validate p c ≡ (c, none)
  unfolding loaded_config
  loaded_config-validate y l path text v c (issue ∷ issues) found h e level = ground (arith, e)
  loaded_config-validate y l path text v c [] none h e level =
      let (d, same, fine) = h refl in ground (arith, same)
  loaded_config-validate y l path text v c [] (some found) h e level =
      let (d, same, fine) = h refl in
      let is_loaded = ap (or_else c) e in
      let is_defaulted = ap (with_file v path (l.hash text) text) (ap (value_or found) same) in
      let level' = subst (λ x. is_log_level (to_lower x.log_level) ≡ true) (sym is_loaded) level in
      let here = with_file v path (l.hash text) text d in
      let accepted : IsAccepted p here = (fine.0, fine.1, level', fine.3, fine.4, fine.5, fine.6) in
      subst (λ x. validate p x ≡ (x, none)) (sym is_defaulted ∙ is_loaded)
        (defaulted-validate here accepted)

  load_text-validate :
      (y : Yaml) (l : Loader) (path text : String) (v c : Config)
      → load_text p y l path v text ≡ inr c
      → is_log_level (to_lower c.log_level) ≡ true
      → validate p c ≡ (c, none)
  unfolding load_text validate_yaml
  load_text-validate y l path text v c e level =
      let next = y.next_document text in
      let result = validate_yaml p y text in
      loaded_config-validate y l path text v c result.errors result.config
        (document_result-IsAccepted y (y.decode text) next) e level

  -- What Load takes from a file passes Config.Validate and is left as it is, as long as the log
  -- level, which the environment may replace, is a known one.
  pub load-validate :
      (y : Yaml) (l : Loader) (c : Config)
      → load p y l ≡ inr c
      → c.file_path ≢ ""
      → is_log_level (to_lower c.log_level) ≡ true
      → validate p c ≡ (c, none)
  unfolding load load_file
  load-validate y l c e named level = elim (outcome l.unmarshal) [
    | inl (error, failed) ↦ ground (arith, e)
    | inr (v, read) ↦ elim (outcome (l.absolute l.file_used)) [
      | inl (error, failed) ↦ ground (arith, e, named)
      | inr (path, resolved) ↦ elim (outcome (l.read path)) [
        | inl (error, failed) ↦ ground (arith, e, named)
        | inr (text, content) ↦
            load_text-validate y l path text v c (ground (arith, e, named)) level
      ]
    ]
  ]
