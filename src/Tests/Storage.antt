-- ===== src/Tests/Storage.antt =====
-- Runs of the storage over a database in memory.
use webcb.Base.{
  replicate, arith, inl, ℕ, ◌≡◌, ◌≢◌, ◌↔◌, refl, true, false, List, [], ◌∷◌, none, some, ok, Bytes,
  decimal, bytes_eq, has_prefix,
}
use webcb.Storage.Badger.{found, missing, Entry, Scanned, written}
use webcb.Storage.Keys.{index_of, chunk_key, chunk_key-has_prefix, pending_key, latest_key}
use webcb.Storage.Batch.{Versions, BatchWriter, holds, insert, remove, lock_version, unlock_version}
use webcb.Storage.Batch.Laws.{Locks, Keeps, lock_version-first, unlock_version-lem}
use webcb.Storage.Batch.Pending.{Open}
use webcb.Storage.Write.Counting.{put_entries, Accounted, put_entries-Accounted}
use webcb.Storage.Write.Laws.{chunk_entries}
use webcb.Storage.Read.Laws.{items_of, chunks-Scanned}
use webcb.Storage.Gc.{discard, collectable, get_index, get_locked_transaction, outside}
use webcb.Storage.Gc.Laws.{Spares, discard-Spares, collectable-chunk_key}
use webcb.Storage.Gc.Reading.{discard-read_batch}
use webcb.Storage.Read.{read_batch}
use webcb.Storage.Write.{Clipboard}
use webcb.Server.Handlers.{stream_writer}
use webcb.Tests.Store.{Store, memory, memory-Healthy, memory-Deleting}
use webcb.Tests.Codecs.{
  versions_codec, versions-RoundTrips, clipboard-RoundTrips, ulid, ulid-Monotonic, env,
}
use webcb.Tests.Examples.{
  small_db-Locks, srv, text_of, small_db, small_db-Locks, empty_writer, sent_chunks,
}

chunks-Scanned_example :
    Scanned
      (λ k. written (chunk_entries ulid 1 0 sent_chunks) k missing)
      (index_of 1)
      (items_of (chunk_entries ulid 1 0 sent_chunks))
chunks-Scanned_example =
    chunks-Scanned ulid ulid-Monotonic 1 0 sent_chunks (λ k. missing)
      (λ k. written (chunk_entries ulid 1 0 sent_chunks) k missing) (λ k h. refl) (λ k p l. refl)

chunk_key-has_prefix_example :
    (has_prefix (chunk_key 12 (ulid 0)) (index_of 1) ≡ true) ↔ ◌≡◌ {A = ℕ} 1 12
chunk_key-has_prefix_example = chunk_key-has_prefix 1 12 (ulid 0)

collectable-chunk_key_example :
    (collectable (some (index_of 2)) [] (chunk_key 1 (ulid 0)) ≡ true)
    ↔ (◌≢◌ {A = ℕ} 2 1 × (holds (decimal 1) [] ≡ false))
collectable-chunk_key_example = collectable-chunk_key 2 1 (ulid 0) []

abbrev small_writer : BatchWriter Store (List Entry)
small_writer = record { batch = []; b = small_db; batch_size = 0; version = 1; once = false }

lock_version-first_example :
    (bw' : BatchWriter Store (List Entry)) × (lock_version memory versions_codec small_writer
      ≡ (ok tt, bw'))
    × Locks memory-Healthy versions-RoundTrips bw'.b.db (insert (decimal 1) [])
    × Keeps memory-Healthy versions-RoundTrips small_writer bw'
lock_version-first_example =
    lock_version-first memory-Healthy versions-RoundTrips small_writer [] small_db-Locks refl

abbrev pub locked_versions : Versions
locked_versions = (decimal 1, []) ∷ (decimal 2, []) ∷ []

abbrev locked_value : Bytes
locked_value = (versions-RoundTrips locked_versions).0

abbrev pub locked_writer : BatchWriter Store (List Entry)
locked_writer = record small_writer {
  b = record small_db {
    db = record { pairs = (pending_key, locked_value) ∷ []; sorted = (tt, tt) };
  };
}

locked_writer-found : memory.get locked_writer.b.db pending_key ≡ found locked_value
unfolding bytes_eq
locked_writer-found = refl

unlock_version-lem_example :
    (bw' : BatchWriter Store (List Entry)) × (unlock_version memory versions_codec locked_writer
      ≡ (ok tt, bw'))
    × Locks memory-Healthy versions-RoundTrips bw'.b.db (remove (decimal 1) locked_versions)
    × ((k : Bytes)
        → bytes_eq pending_key k ≡ false
        → memory.get bw'.b.db k ≡ memory.get locked_writer.b.db k)
unlock_version-lem_example =
    unlock_version-lem memory-Healthy versions-RoundTrips locked_writer locked_value locked_versions
      locked_writer-found (versions-RoundTrips locked_versions).2

-- two entries, of which the second does not fit the first one's batch
abbrev large_entries : List Entry
large_entries =
    record { key = 7 ∷ []; value = replicate 60 1; ttl = none }
    ∷ record { key = 8 ∷ []; value = replicate 60 2; ttl = none }
    ∷ []

no_entries : memory-Healthy.entries [] ≡ []
no_entries = memory-Healthy.entries_new

put_entries-Accounted_example :
    (bw' : BatchWriter Store (List Entry)) × (put_entries memory env large_entries small_writer
      ≡ (ok tt, bw'))
    × Accounted memory-Healthy env versions-RoundTrips bw'
    × (bw'.b.value_log_file_size ≡ 100)
    × Open memory-Healthy versions-RoundTrips bw'
unfolding bytes_eq
put_entries-Accounted_example =
    put_entries-Accounted memory-Healthy env versions-RoundTrips large_entries small_writer
      (record { sound = rw no_entries tt; held = []; lock = small_db-Locks })
      (record { in_limit = omega arith; counted = inl (rw no_entries refl) })
      ((refl, refl), ((refl, refl), tt))

pub no_latest : get_index env.clipboard_codec (memory.get locked_writer.b.db latest_key) ≡ ok none
unfolding bytes_eq get_index
no_latest = refl

pub locked_found :
    get_locked_transaction env.versions_codec (memory.get locked_writer.b.db pending_key)
    ≡ ok locked_versions
unfolding bytes_eq get_locked_transaction
locked_found = (versions-RoundTrips locked_versions).2

latest_safe : collectable none locked_versions latest_key ≡ false
unfolding collectable outside bytes_eq
latest_safe = refl

discard-Spares_example :
    Spares memory-Deleting latest_key (memory.get locked_writer.b.db latest_key) 3 (
      discard memory env 3
        ((false, latest_key) ∷ (false, chunk_key 3 (ulid 0)) ∷ [])
        locked_writer.b.db)
discard-Spares_example =
    discard-Spares memory-Deleting env 3 ((false, latest_key) ∷ (false, chunk_key 3 (ulid 0)) ∷ [])
      locked_writer.b.db none locked_versions latest_key no_latest locked_found latest_safe

abbrev pub current : Clipboard
current = record {
  sequence = 5;
  expire_at = [];
  compressed = false;
  master_key_nonce = [];
  key_nonce = [];
  iv = [];
  checksum = [];
  size = 2;
}

abbrev pub current_value : Bytes
current_value = (clipboard-RoundTrips current).0

abbrev pub current_db : Store
current_db = record { pairs = (latest_key, current_value) ∷ []; sorted = (tt, tt) }

pub current-found : memory.get current_db latest_key ≡ found current_value
unfolding bytes_eq
current-found = refl

pub none_locked :
    get_locked_transaction env.versions_codec (memory.get current_db pending_key) ≡ ok []
unfolding bytes_eq get_locked_transaction
none_locked = refl

discard-read_batch_example :
    read_batch
      (stream_writer srv text_of)
      memory
      env.clipboard_codec
      (discard memory env 3 ((false, latest_key) ∷ (false, chunk_key 3 (ulid 0)) ∷ []) current_db).1
      empty_writer
    ≡ read_batch (stream_writer srv text_of) memory env.clipboard_codec current_db empty_writer
discard-read_batch_example =
    discard-read_batch memory-Healthy memory-Deleting env (stream_writer srv text_of) 3
      ((false, latest_key) ∷ (false, chunk_key 3 (ulid 0)) ∷ []) current_db current_value current []
      empty_writer current-found (clipboard-RoundTrips current).2 none_locked
