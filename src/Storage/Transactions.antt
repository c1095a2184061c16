-- ===== src/Storage/Transactions.antt =====
-- database/sql, as provisional.go uses it: a database with a transaction on it. A statement of
-- `WithTx` works on the transaction's own state, which `Commit` makes that of the database and
-- `Rollback` drops; after either the transaction is over.
use elastic_fruit_runner.Base.{ℕ, Option, none, some}
use elastic_fruit_runner.Storage.Jobs.{Database}

pub record Connection : Type 0 where
  pub db : Database
  pub tx : Option Database

abbrev pub begin_tx : Database → Connection
begin_tx db = record { db = db; tx = some db }

unfoldable pub commit : Connection → Connection
commit c = elim c.tx [ none ↦ c | some d ↦ record { db = d; tx = none } ]

abbrev pub rollback : Connection → Connection
rollback c = record c { tx = none }

-- A statement of the transaction.
unfoldable pub in_tx : (Database → Database) → Connection → Connection
in_tx statement c = elim c.tx [ none ↦ c | some d ↦ record c { tx = some (statement d) } ]

-- A statement of the transaction that may fail, with the number of rows that it affects.
unfoldable pub affects_in_tx :
    (Database → Option (Database × ℕ)) → Connection → Option (Connection × ℕ)
affects_in_tx statement c = elim c.tx [
  | none ↦ none
  | some d ↦ elim (statement d) [
    | none ↦ none
    | some (changed, affected) ↦ some (record c { tx = some changed }, affected)
  ]
]
