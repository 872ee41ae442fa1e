-- ===== src/Storage/Write/Sparing.antt =====
-- A copy that is under way, of storage/badger.go and storage/batch_writer.go, with runs of the collector
-- of storage/gc.go between its entries.
use webcb.Base.{ℕ, ◌≡◌, true, false, List, ok, Bytes, bytes_eq}
use webcb.Storage.Badger.{Entry, Badger, lasting, Healthy}
use webcb.Storage.Keys.{latest_key, pending_key, chunk_key}
use webcb.Storage.Batch.{BatchWriter}
use webcb.Storage.Batch.Laws.{RoundTrips}
use webcb.Storage.Write.{Env, put_entry}
use webcb.Storage.Gc.{Visit, discard}
use webcb.Storage.Gc.Laws.{Deleting}

module _ {Db Batch Txn : Type 0} {badger : Badger Db Batch Txn} (h : Healthy badger)
    (l : Deleting badger) (env : Env) (rt : RoundTrips env.versions_codec) where
  abbrev Bw : Type 0
  Bw = BatchWriter Db Batch

  -- an entry that a copy may store before the record of its version, under another key than `k`
  abbrev pub Other : Bytes → Entry → Type 0
  Other k e =
      (lasting e ≡ true)
      × (bytes_eq e.key pending_key ≡ false)
      × (bytes_eq e.key latest_key ≡ false)
      × (bytes_eq e.key k ≡ false)

  -- a run of the collector, on the database of the copy
  abbrev pub swept_by : ℕ → List Visit → Bw → Bw
  swept_by keys vs bw = record bw {
    b = record bw.b { db = (discard badger env keys vs bw.b.db).1 };
  }

  -- What a copy under way stores under other keys than `k`, with any runs of the collector between.
  pub data Under (k : Bytes) (from : Bw) : Bw → Type 0 where
    start : Under k from from
    stored :
        {bw : Bw}
        → Under k from bw
        → (e : Entry) (bw' : Bw) → Other k e
        → put_entry badger env e bw ≡ (ok tt, bw')
        → Under k from bw'
    swept :
        {bw : Bw}
        → Under k from bw
        → (keys : ℕ) (vs : List Visit) → Under k from (swept_by keys vs bw)

  module _ (v : ℕ) (ulid x : Bytes) where
    abbrev key : Bytes
    key = chunk_key v ulid
