-- ===== src/Storage/Batch.antt =====
-- storage/batch_writer.go: a write batch that is flushed before it outgrows a value log file, and
-- the lock that keeps the garbage collector off a version that is flushed in parts.
pub mod Laws
pub mod Pending
pub mod Release
use webcb.Base.{
  ℕ, ◌+◌, Bool, true, false, List, [], ◌∷◌, Option, none, some, Result, ok, err, Error, Bytes,
  length, bytes_eq, decimal, ltb, if◌then◌else◌,
}
use webcb.Base.Exec.{Exec, pure, raise, go_on, ◌>>=◌, ◌>>◌}
use webcb.Storage.Badger.{Get, found, missing, broken, Entry, Badger, Codec}
use webcb.Storage.Keys.{pending_key}

abbrev pub max_header_size : ℕ
max_header_size = 21

-- `crc32.Size`
abbrev pub crc32_size : ℕ
crc32_size = 4

unfoldable pub estimate_entry_size : Bytes → Bytes → ℕ
estimate_entry_size key value = max_header_size + length key + length value + crc32_size

-- The map `Versions` of the message `LockedTransaction`.
abbrev pub Versions : Type 0
Versions = List (Bytes × Bytes)

-- `delete(m, k)`
pub remove : Bytes → Versions → Versions
remove k [] = []
remove k ((j, v) ∷ m) = if bytes_eq j k then remove k m else (j, v) ∷ remove k m

-- `m[k] = nil`
pub insert : Bytes → Versions → Versions
unfolding remove
insert k m = (k, []) ∷ remove k m

-- `_, ok := m[k]`
unfoldable pub holds : Bytes → Versions → Bool
holds k [] = false
holds k ((j, v) ∷ m) = if bytes_eq j k then true else holds k m

-- The fields of `BadgerDB` that change or bound a write; `ulids` counts the ULIDs made so far.
pub record BadgerDb (Db : Type 0) : Type 0 where
  pub db : Db
  pub value_log_file_size : ℕ
  pub chunk_size : ℕ
  pub ulids : ℕ

pub record BatchWriter (Db Batch : Type 0) : Type 0 where
  pub batch : Batch
  pub b : BadgerDb Db
  pub batch_size : ℕ
  pub version : ℕ
  pub once : Bool

module _ {Db Batch Txn : Type 0} (badger : Badger Db Batch Txn) (codec : Codec Versions) where
  abbrev Bw : Type 0
  Bw = BatchWriter Db Batch

  unfoldable pub new_batch_writer : BadgerDb Db → ℕ → Bw
  new_batch_writer b version = record {
    batch = badger.new_batch;
    b = b;
    batch_size = 0;
    version = version;
    once = false;
  }

  lift : {A : Type 0} → Result A → Exec Bw A
  lift r bw = (r, bw)

  -- an error of the database, or nothing
  returned : {S : Type 0} → Option Error → S → Result (Unit {0}) × S
  returned none s = (ok tt, s)
  returned (some e) s = (err e, s)

  -- `txn.Set` of a transaction that `Update` commits
  set_key : Bytes → Bytes → Exec Bw (Unit {0})
  unfolding returned
  set_key k v bw =
      let (e, d) = badger.put bw.b.db k v in returned e (record bw { b = record bw.b { db = d } })

  -- the map under the key PENDING, empty if there is none
  read_versions : Get → Exec Bw Versions
  unfolding lift
  read_versions (found v) = lift (codec.unmarshal v)
  read_versions missing = pure []
  read_versions (broken e) = raise e

  locking : Exec Bw (Unit {0})
  unfolding set_key read_versions
  locking = do
    versions ← (λ bw. read_versions (badger.get bw.b.db pending_key) bw)
    value ← (λ bw. lift (codec.marshal (insert (decimal bw.version) versions)) bw)
    set_key pending_key value

  -- `lockVersion`: what `once` has done is not done again, whatever came of it.
  pub lock_version : Exec Bw (Unit {0})
  unfolding locking
  lock_version bw = if bw.once then (ok tt, bw) else locking (record bw { once = true })

  unlocking : Get → Exec Bw (Unit {0})
  unfolding set_key lift
  unlocking missing = pure tt
  unlocking (broken e) = raise e
  unlocking (found v) = do
    versions ← lift (codec.unmarshal v)
    value ← (λ bw. lift (codec.marshal (remove (decimal bw.version) versions)) bw)
    set_key pending_key value

  pub unlock_version : Exec Bw (Unit {0})
  unfolding unlocking
  unlock_version bw = unlocking (badger.get bw.b.db pending_key) bw

  -- the embedded `WriteBatch`
  pub set_entry : Entry → Exec Bw (Unit {0})
  unfolding returned
  set_entry entry bw =
      let (e, t) = badger.set_entry bw.batch entry in returned e (record bw { batch = t })

  unfoldable pub flush : Exec Bw (Unit {0})
  unfolding returned
  flush bw =
      let (e, d) = badger.flush bw.b.db bw.batch in
      returned e (record bw { b = record bw.b { db = d } })

  unfoldable pub renew : Exec Bw (Unit {0})
  renew bw = (ok tt, record bw { batch = badger.new_batch; batch_size = 0 })

  -- `Validate`
  unfoldable pub validate : Bytes → Bytes → Exec Bw (Unit {0})
  validate key value bw =
      let bw' : Bw = record bw { batch_size = bw.batch_size + estimate_entry_size key value } in
      if ltb bw.b.value_log_file_size bw'.batch_size
      then (do lock_version; flush; renew) bw'
      else (ok tt, bw')

  -- `Release`: `Cancel` drops what was not flushed.
  pub release : Exec Bw (Unit {0})
  unfolding unlock_version
  release bw = unlock_version (record bw { batch = badger.new_batch })
