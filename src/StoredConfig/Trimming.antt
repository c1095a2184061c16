-- ===== src/StoredConfig/Trimming.antt =====
-- internal/configstate/storage.go and the table config_revisions: which revisions a trim keeps.
use elastic_fruit_runner.Base.{
  ℕ, zero, suc, ◌≤◌, ◌≡◌, refl, ap, ◌∙◌, Bool, true, false, ◌||◌, ◌&&◌, not, none, List, [], ◌∷◌,
  ◌++◌, arith, ltb, eqb, keep_if, take, length, Bool-cases, inl, inr,
}
use elastic_fruit_runner.Storage.Revisions.{
  ConfigRevision, Revisions, insert_latest, latest_first, has_id, trim_config_revisions,
  get_last_active_config_yaml, yaml_of_first,
}

abbrev pub newer : ℕ → ConfigRevision → Bool
newer bound row = ltb bound row.created_at

abbrev pub older : ℕ → ConfigRevision → Bool
older bound row = not (newer bound row)

abbrev All : (ConfigRevision → Type 0) → List ConfigRevision → Type 0
All P [] = Unit {0}
All P (row ∷ rows) = P row × All P rows

module _ (bound : ℕ) where
  abbrev IsNewer : ConfigRevision → Type 0
  IsNewer row = newer bound row ≡ true

  insert_latest-IsNewer :
      (row : ConfigRevision) (rows : List ConfigRevision)
      → IsNewer row
      → All IsNewer rows
      → All IsNewer (insert_latest row rows)
  unfolding insert_latest
  insert_latest-IsNewer row [] h hs = (h, tt)
  insert_latest-IsNewer row (r ∷ rows) h hs = elim (Bool-cases (ltb row.created_at r.created_at)) [
    | inl before ↦ rw before (hs.0, insert_latest-IsNewer row rows h hs.1)
    | inr after ↦ rw after (h, hs)
  ]

  latest_first-IsNewer :
      (rows : List ConfigRevision) → All IsNewer (latest_first (keep_if (newer bound) rows))
  unfolding latest_first keep_if
  latest_first-IsNewer [] = tt
  latest_first-IsNewer (row ∷ rows) = elim (Bool-cases (newer bound row)) [
    | inl new ↦ rw new (
        insert_latest-IsNewer row (latest_first (keep_if (newer bound) rows)) new
          (latest_first-IsNewer rows))
    | inr old ↦ rw old (latest_first-IsNewer rows)
  ]

  -- Newer rows stand before older ones.
  insert_latest-newer :
      (row : ConfigRevision) (xs ys : List ConfigRevision)
      → IsNewer row
      → All (λ r. older bound r ≡ true) ys
      → insert_latest row (xs ++ ys) ≡ insert_latest row xs ++ ys
  unfolding insert_latest
  insert_latest-newer row [] [] h hs = refl
  insert_latest-newer row [] (y ∷ ys) h hs = ground (arith, h, hs.0)
  insert_latest-newer row (x ∷ xs) ys h hs = ground (arith, insert_latest-newer row xs ys h hs)

  insert_latest-older :
      (row : ConfigRevision) (xs ys : List ConfigRevision)
      → older bound row ≡ true
      → All IsNewer xs
      → insert_latest row (xs ++ ys) ≡ xs ++ insert_latest row ys
  unfolding insert_latest
  insert_latest-older row [] ys h hs = refl
  insert_latest-older row (x ∷ xs) ys h hs =
      ground (arith, h, hs.0, insert_latest-older row xs ys h hs.1)

  insert_latest-IsOlder :
      (row : ConfigRevision) (rows : List ConfigRevision)
      → older bound row ≡ true
      → All (λ r. older bound r ≡ true) rows
      → All (λ r. older bound r ≡ true) (insert_latest row rows)
  unfolding insert_latest
  insert_latest-IsOlder row [] h hs = (h, tt)
  insert_latest-IsOlder row (r ∷ rows) h hs = elim (Bool-cases (ltb row.created_at r.created_at)) [
    | inl before ↦ rw before (hs.0, insert_latest-IsOlder row rows h hs.1)
    | inr after ↦ rw after (h, hs)
  ]

  latest_first-split :
      (rows : List ConfigRevision)
      → (olds : List ConfigRevision) × (latest_first rows
          ≡ latest_first (keep_if (newer bound) rows) ++ olds)
        × All (λ r. older bound r ≡ true) olds
  unfolding latest_first keep_if
  latest_first-split [] = ([], refl, tt)
  latest_first-split (row ∷ rows) =
      let (olds, split, old_ones) = latest_first-split rows in
      let news = latest_first (keep_if (newer bound) rows) in
      elim (Bool-cases (newer bound row)) [
        | inl new ↦ rw new (
          olds,
          ap (insert_latest row) split ∙ insert_latest-newer row news olds new old_ones,
          old_ones,
        )
        | inr old ↦
            let old' : older bound row ≡ true = ground (arith, old) in
            rw old (
              insert_latest row olds,
              ap (insert_latest row) split
                  ∙ insert_latest-older row news olds old' (latest_first-IsNewer rows),
              insert_latest-IsOlder row olds old' old_ones,
            )
      ]

take-front : (n : ℕ) (xs ys : List ConfigRevision) → n ≤ length xs → take n (xs ++ ys) ≡ take n xs
take-front zero xs ys h = refl
take-front (suc n) [] ys h = ground (arith, h)
take-front (suc n) (x ∷ xs) ys h = rw (take-front n xs ys (omega (arith, h))) refl

length-insert_latest :
    (row : ConfigRevision) (rows : List ConfigRevision)
    → length (insert_latest row rows) ≡ suc (length rows)
unfolding insert_latest
length-insert_latest row [] = refl
length-insert_latest row (r ∷ rows) = ground (arith, length-insert_latest row rows)

length-latest_first : (rows : List ConfigRevision) → length (latest_first rows) ≡ length rows
unfolding latest_first
length-latest_first [] = refl
length-latest_first (row ∷ rows) =
    length-insert_latest row (latest_first rows) ∙ ap suc (length-latest_first rows)

has_id-insert_latest :
    (id : ℕ) (row : ConfigRevision) (rows : List ConfigRevision)
    → has_id id (insert_latest row rows) ≡ (eqb row.id id || has_id id rows)
unfolding has_id insert_latest
has_id-insert_latest id row [] = refl
has_id-insert_latest id row (r ∷ rows) = ground (arith, has_id-insert_latest id row rows)

has_id-latest_first :
    (id : ℕ) (rows : List ConfigRevision) → has_id id (latest_first rows) ≡ has_id id rows
unfolding has_id latest_first
has_id-latest_first id [] = refl
has_id-latest_first id (row ∷ rows) =
    has_id-insert_latest id row (latest_first rows)
    ∙ ap (λ b. eqb row.id id || b) (has_id-latest_first id rows)

has_id-take :
    (id n : ℕ) (rows : List ConfigRevision)
    → has_id id rows ≡ false
    → has_id id (take n rows) ≡ false
unfolding has_id
has_id-take id zero rows h = refl
has_id-take id (suc n) [] h = refl
has_id-take id (suc n) (row ∷ rows) h = ground (arith, h, has_id-take id n rows)

-- No active revision shares its id with a newer one, so in particular none is newer itself.
abbrev pub ActiveIsOld : ℕ → List ConfigRevision → List ConfigRevision → Type 0
ActiveIsOld bound rows [] = Unit {0}
ActiveIsOld bound rows (row ∷ more) =
    (eqb row.active 1 && has_id row.id (keep_if (newer bound) rows) ≡ false)
    × ActiveIsOld bound rows more

none_active :
    (bound : ℕ) (rows more : List ConfigRevision)
    → ActiveIsOld bound rows more
    → keep_if
        (λ row. eqb row.active 1)
        (keep_if (λ row. has_id row.id (take 10 (latest_first (keep_if (newer bound) rows)))) more)
      ≡ []
unfolding keep_if
none_active bound rows [] h = refl
none_active bound rows (row ∷ more) h =
    let same = has_id-latest_first row.id (keep_if (newer bound) rows) in
    let cut = has_id-take row.id 10 (latest_first (keep_if (newer bound) rows)) in
    ground (arith, h.0, same, cut, none_active bound rows more h.1)

-- A trim loses the active revision as soon as ten newer revisions stand in the table. What the next
-- start would recover from a broken file, LoadLastActive, then finds nothing.
pub trim_loses_active :
    (bound : ℕ) (t : Revisions)
    → ActiveIsOld bound t.rows t.rows
    → 10 ≤ length (keep_if (newer bound) t.rows)
    → get_last_active_config_yaml (trim_config_revisions t) ≡ none
unfolding get_last_active_config_yaml trim_config_revisions latest_first
trim_loses_active bound t old enough =
    let (olds, split, old_ones) = latest_first-split bound t.rows in
    let news = latest_first (keep_if (newer bound) t.rows) in
    let long = length-latest_first (keep_if (newer bound) t.rows) in
    let front = ap (take 10) split ∙ take-front 10 news olds (omega (arith, long, enough)) in
    let active = λ (row : ConfigRevision). eqb row.active 1 in
    let gone =
      ap (λ kept. keep_if active (keep_if (λ row. has_id row.id kept) t.rows)) front
      ∙ none_active bound t.rows t.rows old in
    ap (λ rows. yaml_of_first (latest_first rows)) gone
