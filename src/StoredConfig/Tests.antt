-- ===== src/StoredConfig/Tests.antt =====
-- The theorems about the stored configuration at a document with one token, at a Save whose last
-- statement fails, and at a table with eleven revisions.
use elastic_fruit_runner.Base.{
  ℕ, ◌≡◌, ◌≢◌, ◌⊎◌, refl, true, false, String, none, some, [], ◌∷◌, inl, inr, arith, is_some,
  keep_if, pos,
}
use elastic_fruit_runner.Config.Node.{Node, node, nil, cons, mapping_node, scalar_node}
use elastic_fruit_runner.Config.Cloud.{Platform}
use elastic_fruit_runner.Config.Yaml.{RawConfig, end_of_file}
use elastic_fruit_runner.Storage.Revisions.{
  ConfigRevision, Revisions, has_id, get_last_active_config_yaml, trim_config_revisions,
}
use elastic_fruit_runner.StoredConfig.Secrets.{
  redact_node, merge_secret_nodes, current_value, masked,
}
use elastic_fruit_runner.StoredConfig.Secrets.Hidden
use elastic_fruit_runner.StoredConfig.Secrets.Hidden.{Alike, redact_node_hides}
use elastic_fruit_runner.StoredConfig.Secrets.Restored.{KeysDiffer, merge_secret_nodes-redact_node}
use elastic_fruit_runner.StoredConfig.Texts.{merge_masked_secrets}
use elastic_fruit_runner.StoredConfig.{
  Service, Library, Faults, commits, in_sync, save, current_text,
}
use elastic_fruit_runner.StoredConfig.Saving.{IsStored, save_lem}
use elastic_fruit_runner.StoredConfig.Trimming.{trim_loses_active}

abbrev platform : Platform
platform = record {
  parse_url = λ url. some (record { scheme = "https"; host = "cloud"; hostname = "cloud" });
  splits_host_port = λ address. true;
  quoted = λ text. text;
  read_file = λ path. inl "no such file";
  pem_type = λ content. none;
  is_private_key = λ type. false;
  dir = λ path. "/";
  stat = λ path. none;
  open_error = λ path. none;
  create_error = λ dir. none;
}

-- The document of a cloud block.
abbrev raw : RawConfig
raw = record {
  orgs = [];
  repos = [];
  cloud = some (record { server_url = "https://cloud"; max_runners = pos 2 });
  idle_timeout = pos 0;
  log_level = "";
  api_addr = "";
  cors = record {
    allow_origin = "";
    allow_methods = "";
    allow_headers = "";
    expose_headers = "";
    allow_credentials = false;
    max_age = pos 0;
  };
  db_path = "";
  log_path = "";
}

abbrev library : Library
library = record {
  platform = platform;
  yaml = record {
    decode = λ text. inr raw;
    next_document = λ text. end_of_file;
    marshal = λ document. some "cloud:";
  };
  documents = record {
    parse = λ text. inr (node scalar_node "" text "" nil);
    encode = λ document. inr "cloud:";
  };
  hash = λ text. text;
  read_error = "no such file";
  modified_at = none;
}

-- The commit of the revision fails.
abbrev fails : Faults
fails call = elim call [ commits ↦ some "disk full" | _ ↦ none ]

abbrev service : Service
service = record {
  path = "/config.yaml";
  active_hash = "orgs:";
  active_yaml = "orgs:";
  active_loaded_at = 1;
  revisions = record { rows = []; next_id = 1 };
  snapshot = record {
    path = "/config.yaml";
    active_hash = "orgs:";
    disk_hash = "orgs:";
    state = in_sync;
    disk_modified_at = none;
    active_loaded_at = 1;
    validation_errors = [];
    active_yaml = "orgs:";
    disk_yaml = "orgs:";
  };
  disk = some "orgs:";
}

save_lem_example :
    let o = save library fails "draft" "editor" 5 service in
    ((o.0 ≡ service) × ((is_some o.2 ≡ true) ⊎ (o.1.errors ≢ [])))
    ⊎ ((merged : String) × (merge_masked_secrets library.documents "draft" (current_text service)
          ≡ inr merged)
        × IsStored library service merged o.0 o.2)
save_lem_example = save_lem library fails "editor" 5 "draft" service

abbrev scalar : String → Node
scalar value = node scalar_node "!!str" value "" nil

-- `auth: {pat_token: <token>}`
abbrev document : String → Node
document token = node mapping_node "!!map" "" "" (
    cons (scalar "auth") (
      cons (node mapping_node "!!map" "" "" (cons (scalar "pat_token") (cons (scalar token) nil)))
        nil))

program : Unit {0}
unfolding redact_node merge_secret_nodes current_value masked KeysDiffer keep_if has_id
program = tt

redact_node_hides_example : redact_node (document "one") ≡ redact_node (document "two")
unfolding program
redact_node_hides_example = redact_node_hides (document "one") (document "two") (
    Hidden.mapping (
      Hidden.plain refl (Hidden.mapping (Hidden.secret refl refl Hidden.no_pairs)) Hidden.no_pairs))

merge_secret_nodes-redact_node_example :
    merge_secret_nodes (redact_node (document "one")) (document "one") ≡ document "one"
unfolding program
merge_secret_nodes-redact_node_example =
    merge_secret_nodes-redact_node (document "one") (refl, (refl, tt, tt), tt)

abbrev revision : ℕ → ℕ → ConfigRevision
revision id active = record {
  id = id;
  created_at = id;
  source = "editor";
  config_hash = "";
  config_yaml = "orgs: []";
  active = active;
}

-- The revision of the start, and ten saves after it.
abbrev table : Revisions
table = record {
  rows =
      revision 11 0
      ∷ revision 10 0
      ∷ revision 9 0
      ∷ revision 8 0
      ∷ revision 7 0
      ∷ revision 6 0
      ∷ revision 5 0
      ∷ revision 4 0
      ∷ revision 3 0
      ∷ revision 2 0
      ∷ revision 1 1
      ∷ [];
  next_id = 12;
}

trim_loses_active_example : get_last_active_config_yaml (trim_config_revisions table) ≡ none
unfolding program
trim_loses_active_example =
    trim_loses_active 1 table
      (refl, (refl, (refl, (refl, (refl, (refl, (refl, (refl, (refl, (refl, (refl, tt)))))))))))
      (omega arith)
