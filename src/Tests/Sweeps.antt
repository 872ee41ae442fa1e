-- ===== src/Tests/Sweeps.antt =====
-- Runs of the collector over a database in memory.
use webcb.Base.{
  ℕ, ◌≡◌, refl, true, [], ◌∷◌, arith, none, some, Result, ok, message, Bytes, bytes_eq,
  before_slash, length,
}
use webcb.Storage.Keys.{latest_key, pending_key}
use webcb.Storage.Batch.{holds}
use webcb.Storage.Read.{read_batch}
use webcb.Storage.Gc.{get_locked_transaction, get_index, collectable, outside, discard}
use webcb.Storage.Gc.Removing.{lists, visits, chosen, Removed, discard-Removed}
use webcb.Storage.Open.{Compactor, Ticks, tick, compact, discard_key_max_number}
use webcb.Storage.Open.Laws.{Keeps, ticks-read_batch}
use webcb.Base.{List, replicate, bytes_eq-flip}
use webcb.Storage.Badger.{Entry}
use webcb.Storage.Batch.{BatchWriter, new_batch_writer}
use webcb.Storage.Batch.Pending.{Open}
use webcb.Storage.Write.{put_entry}
use webcb.Storage.Write.Laws.{Put, put_entry-Put}
use webcb.Storage.Write.Sparing.{Other, swept_by}
use webcb.Storage.Keys.{chunk_key, chunk_key-ne}
use webcb.Tests.Codecs.{ulid, versions-RoundTrips}
use webcb.Tests.Examples.{small_db, small_db-Locks}
use webcb.Server.Handlers.{stream_writer}
use webcb.Tests.Store.{Store, memory, memory-Healthy, memory-Deleting}
use webcb.Tests.Store.Removing.{memory-Removing}
use webcb.Tests.Codecs.{clipboard-RoundTrips, env}
use webcb.Tests.Examples.{srv, text_of, empty_writer}
use webcb.Tests.Storage.{current, current_value, current_db, current-found, none_locked}

abbrev stale : Bytes
stale = 51 ∷ 47 ∷ []

abbrev stale_db : Store
stale_db = record { pairs = (stale, 1 ∷ []) ∷ []; sorted = (tt, tt) }

no_index : get_index env.clipboard_codec (memory.get stale_db latest_key) ≡ ok none
unfolding get_index bytes_eq
no_index = refl

no_locks : get_locked_transaction env.versions_codec (memory.get stale_db pending_key) ≡ ok []
unfolding get_locked_transaction bytes_eq
no_locks = refl

stale-listed : lists stale (chosen none [] (latest_key ∷ stale ∷ [])) ≡ true
unfolding collectable outside bytes_eq before_slash holds
stale-listed = refl

discard-Removed_example :
    Removed memory
      (length (chosen none [] (latest_key ∷ stale ∷ [])))
      stale
      (discard memory env 2 (visits (latest_key ∷ stale ∷ [])) stale_db)
discard-Removed_example =
    discard-Removed memory-Deleting memory-Removing env 2 (latest_key ∷ stale ∷ []) stale_db none []
      stale no_index no_locks (omega arith) stale-listed

-- nothing to rewrite
abbrev run : Compactor Store
run d = (some (message "no rewrite"), d)

run-Keeps : Keeps memory run
run-Keeps d k = refl

abbrev swept : Result ℕ × Store
swept = discard memory env discard_key_max_number (visits (latest_key ∷ stale ∷ [])) current_db

one_tick : Ticks memory env run current_db swept.1
unfolding tick compact
one_tick = Ticks.after Ticks.start 1 (visits (latest_key ∷ stale ∷ [])) swept.0 swept.1 refl

ticks-read_batch_example :
    read_batch (stream_writer srv text_of) memory env.clipboard_codec swept.1 empty_writer
    ≡ read_batch (stream_writer srv text_of) memory env.clipboard_codec current_db empty_writer
ticks-read_batch_example =
    ticks-read_batch memory-Healthy memory-Deleting env run run-Keeps (stream_writer srv text_of)
      current_db swept.1 current_value current [] empty_writer current-found
      (clipboard-RoundTrips current).2 none_locked one_tick

-- a copy of two entries, of which the second one flushes the first, and a run of the collector after it
abbrev chunk : Bytes
chunk = chunk_key 1 (ulid 0)

abbrev copying : BatchWriter Store (List Entry)
copying = new_batch_writer memory env.versions_codec small_db 1

abbrev first_chunk : Entry
first_chunk = record { key = chunk; value = 5 ∷ []; ttl = none }

copying-Open : Open memory-Healthy versions-RoundTrips copying
unfolding new_batch_writer
copying-Open = record { sound = rw memory-Healthy.entries_new tt; held = []; lock = small_db-Locks }

abbrev first_put :
    Put memory-Healthy env versions-RoundTrips first_chunk copying
      (put_entry memory env first_chunk copying)
first_put =
    put_entry-Put memory-Healthy env versions-RoundTrips first_chunk copying copying-Open refl
      (chunk_key-ne 1 (ulid 0) pending_key (omega arith))

abbrev large_entry : Entry
large_entry = record { key = 51 ∷ []; value = replicate 90 1; ttl = none }

stale-Other : Other memory-Healthy memory-Deleting env versions-RoundTrips chunk large_entry
unfolding bytes_eq
stale-Other = (
  refl,
  refl,
  refl,
  bytes_eq-flip chunk (51 ∷ []) (chunk_key-ne 1 (ulid 0) (51 ∷ []) (omega arith)),
)

abbrev second_put :
    Put memory-Healthy env versions-RoundTrips large_entry first_put.after
      (put_entry memory env large_entry first_put.after)
second_put =
    put_entry-Put memory-Healthy env versions-RoundTrips large_entry first_put.after
      first_put.is_open stale-Other.0 stale-Other.1

abbrev copied_on : BatchWriter Store (List Entry)
copied_on =
    swept_by memory-Healthy memory-Deleting env versions-RoundTrips discard_key_max_number
      (visits (chunk ∷ stale ∷ [])) second_put.after
