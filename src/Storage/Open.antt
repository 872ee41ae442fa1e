-- ===== src/Storage/Open.antt =====
-- How `NewBadgerDB` of storage/badger.go opens the database, and the collector that it starts.
pub mod Laws
use webcb.Base.Try.{◌>>=◌}
use webcb.Base.{
  ℕ, ◌≡◌, zero, suc, Bool, List, [], Option, none, some, Result, ok, err, Error, Bytes,
  if◌then◌else◌,
}
use webcb.Base.Int.{ℤ, pos}
use webcb.Storage.Badger.{Badger}
use webcb.Storage.Keys.{version_key}
use webcb.Storage.Batch.{BadgerDb}
use webcb.Storage.Write.{Env}
use webcb.Storage.Gc.{Visit, discard}

-- `BadgerConfig`, without `ValueSize`, which nothing reads
pub record BadgerConfig : Type 0 where
  pub path : Bytes
  pub in_memory : Bool
  pub gc_interval : ℤ

-- the options that are set for `badger.Open`
pub record Options : Type 0 where
  pub dir : Bytes
  pub in_memory : Bool
  pub num_versions_to_keep : ℕ
  pub num_level_zero_tables : ℕ
  pub value_log_file_size : ℕ

abbrev pub min_gc_interval : ℤ
min_gc_interval = pos 60_000_000_000

abbrev pub value_log_file_size : ℕ
value_log_file_size = 524_288_000

abbrev pub chunk_size : ℕ
chunk_size = 65_536

abbrev pub discard_key_max_number : ℕ
discard_key_max_number = 20_000

-- `badger.Open`, and `GetSequence` of a key with a bandwidth
pub record Opener (Db : Type 0) : Type 0 where
  pub open_with : Options → Result Db
  pub get_sequence : Db → Bytes → ℕ → Result Db

abbrev pub options_of : BadgerConfig → Options
options_of config = record {
  dir = if config.in_memory then [] else config.path;
  in_memory = config.in_memory;
  num_versions_to_keep = 1;
  num_level_zero_tables = 1;
  value_log_file_size = value_log_file_size;
}

-- `NewBadgerDB`: the database, or the error of a call
unfoldable pub new_badger_db : {Db : Type 0} → Opener Db → BadgerConfig → Result (BadgerDb Db)
new_badger_db opener config = do
  db ← opener.open_with (options_of config)
  db' ← opener.get_sequence db version_key 1000
  ok (record {
    db = db';
    value_log_file_size = value_log_file_size;
    chunk_size = chunk_size;
    ulids = 0;
  })

-- `RunValueLogGC`: an error, `ErrNoRewrite` among them, or a log file that was rewritten
abbrev pub Compactor : Type 0 → Type 0
Compactor Db = Db → Option Error × Db

-- `goto AGAIN` without an error
again : {Db : Type 0} → (Db → Option Db) → Option Error × Db → Option Db
again go (none, d) = go d
again go (some e, d) = some d

-- The loop `AGAIN` of the collector, with at most so many rounds.
unfoldable pub compact : {Db : Type 0} → Compactor Db → ℕ → Db → Option Db
unfolding again
compact run zero d = none
compact run (suc rounds) d = again (compact run rounds) (run d)

module _ {Db Batch Txn : Type 0} (badger : Badger Db Batch Txn) (env : Env)
    (run : Compactor Db) where
  -- What happens at a tick; `vs` is what the iteration of `discard` meets.
  unfoldable pub tick : ℕ → List Visit → Db → Option (Result ℕ × Db)
  unfolding compact
  tick rounds vs d = elim (compact run rounds d) [
    | none ↦ none
    | some d' ↦ some (discard badger env discard_key_max_number vs d')
  ]

  -- the databases that ticks lead to
  pub data Ticks (from : Db) : Db → Type 0 where
    start : Ticks from from
    after :
        {d : Db}
        → Ticks from d
        → (rounds : ℕ) (vs : List Visit) (r : Result ℕ) (d' : Db) → tick rounds vs d ≡ some (r, d')
        → Ticks from d'

-- `DropAll` of a `BadgerDB`, of what `DropAll` of badger does
unfoldable pub drop_all :
    {Db : Type 0} → (Db → Option Error × Db) → BadgerDb Db → Option Error × BadgerDb Db
drop_all drop b = let (e, d) = drop b.db in (e, record b { db = d })

-- `Close` of a `BadgerDB`, of what `Release` of the sequence and `Close` of badger do: the error that is
-- logged, and the one that is returned
pub close :
    {Db : Type 0}
    → (Db → Option Error × Db)
    → (Db → Option Error × Db)
    → BadgerDb Db
    → Option Error × Option Error × BadgerDb Db
close release close_db b =
    let (logged, d) = release b.db in let (e, d') = close_db d in (logged, e, record b { db = d' })
