-- ===== src/Storage/Revisions.antt =====
-- The table config_revisions and the statements on it (internal/storage/sqlc).
use elastic_fruit_runner.Base.{
  ℕ, ◌+◌, Bool, false, String, Option, none, some, List, [], ◌∷◌, map, take, ltb, eqb, ◌||◌,
  if◌then◌else◌, keep_if,
}

pub record ConfigRevision : Type 0 where
  pub id : ℕ
  pub created_at : ℕ
  pub source : String
  pub config_hash : String
  pub config_yaml : String
  pub active : ℕ

-- The table and the next value of its counted key.
pub record Revisions : Type 0 where
  pub rows : List ConfigRevision
  pub next_id : ℕ

abbrev pub inactive : ConfigRevision → ConfigRevision
inactive row = record row { active = 0 }

unfoldable pub clear_active_config_revision : Revisions → Revisions
clear_active_config_revision t = record t { rows = map inactive t.rows }

unfoldable pub insert_config_revision : ℕ → String → String → String → ℕ → Revisions → Revisions
insert_config_revision created_at source config_hash config_yaml active t = record {
  rows =
      record {
        id = t.next_id;
        created_at = created_at;
        source = source;
        config_hash = config_hash;
        config_yaml = config_yaml;
        active = active;
      }
      ∷ t.rows;
  next_id = t.next_id + 1;
}

-- ORDER BY created_at DESC
unfoldable pub insert_latest : ConfigRevision → List ConfigRevision → List ConfigRevision
insert_latest row [] = row ∷ []
insert_latest row (r ∷ rows) =
    let rest = insert_latest row rows in
    if ltb row.created_at r.created_at then r ∷ rest else row ∷ r ∷ rows

unfoldable pub latest_first : List ConfigRevision → List ConfigRevision
unfolding insert_latest
latest_first [] = []
latest_first (row ∷ rows) = insert_latest row (latest_first rows)

unfoldable pub has_id : ℕ → List ConfigRevision → Bool
has_id id [] = false
has_id id (row ∷ rows) = eqb row.id id || has_id id rows

-- id NOT IN (SELECT id ... LIMIT 10)
unfoldable pub trim_config_revisions : Revisions → Revisions
trim_config_revisions t =
    let newest = take 10 (latest_first t.rows) in
    record t { rows = keep_if (λ row. has_id row.id newest) t.rows }

unfoldable pub list_recent_config_revisions : Revisions → List ConfigRevision
list_recent_config_revisions t = take 10 (latest_first t.rows)

abbrev pub yaml_of_first : List ConfigRevision → Option String
yaml_of_first [] = none
yaml_of_first (row ∷ rows) = some row.config_yaml

unfoldable pub get_config_revision_yaml : ℕ → Revisions → Option String
get_config_revision_yaml id t = yaml_of_first (keep_if (λ row. eqb row.id id) t.rows)

unfoldable pub get_last_active_config_yaml : Revisions → Option String
get_last_active_config_yaml t =
    yaml_of_first (latest_first (keep_if (λ row. eqb row.active 1) t.rows))
