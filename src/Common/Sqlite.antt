-- ===== src/Common/Sqlite.antt =====
-- What a store on SQLite sees of its database: a statement takes place as a whole or not at all, and
-- every error becomes the store's own.
use fleet_graph.Common.{Result, err, ok}

-- What the database does with one call: no connection, an error of SQLite, or the statement.
pub data Io : Type 0 where
  not_open : Io
  fails : Io
  works : Io

pub data StoreError : Type 0 where
  store_not_open : StoreError
  unusable : StoreError

-- A transaction: what it leaves and returns if it commits, and the tables as they were if not.
abbrev pub transact : {S A : Type 0} → Io → S → S × A → S × Result StoreError A
transact Io.not_open old new = (old, err StoreError.store_not_open)
transact Io.fails old new = (old, err StoreError.unusable)
transact Io.works old (new, answer) = (new, ok answer)

-- A SELECT.
abbrev pub selected : {A : Type 0} → Io → A → Result StoreError A
selected Io.not_open rows = err StoreError.store_not_open
selected Io.fails rows = err StoreError.unusable
selected Io.works rows = ok rows
