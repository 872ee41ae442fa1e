-- ===== src/Storage/Write/Stored.antt =====
-- What a whole `WriteBatch` of storage/badger.go leaves in the database.
use webcb.Base.{
  ℕ, ◌<◌, ◌≡◌, refl, sym, ◌∙◌, ap, subst, true, false, arith, Option, some, Result, ok, eof, Bytes,
  length, replicate, bytes_eq, bytes_eq_refl, if◌then◌else◌,
}
use webcb.Storage.Badger.{Get, found, Entry, Badger, written, lasting, Healthy}
use webcb.Storage.Keys.{pending_key, latest_key}
use webcb.Storage.Batch.{Versions, BadgerDb, BatchWriter, new_batch_writer, release}
use webcb.Storage.Batch.Laws.{RoundTrips, view, Locks}
use webcb.Storage.Batch.Pending.{Open}
use webcb.Storage.Write.{
  Clipboard, StreamReader, Env, Meta, copy_loop, commit_version, finish, write_batch,
}
use webcb.Base.{decimal, ap₂, length-replicate}
use webcb.Base.Int.{above}
use webcb.Storage.Batch.{holds}
use webcb.Storage.Batch.Laws.{Sound}
use webcb.Storage.Batch.Release.{release-Released}
use webcb.Storage.Batch.Pending.{flushed, flush-lem, get-flushed, flushed-Locks, flushed-version}
use webcb.Storage.Write.Laws.{Yields, pieces, chunk_entries, put_entry-Put}
use webcb.Storage.Write.Loop.{Looped, Looped-at, copy_loop-Looped}

latest-ne-pending : bytes_eq latest_key pending_key ≡ false
unfolding bytes_eq
latest-ne-pending = refl

pending-ne-latest : bytes_eq pending_key latest_key ≡ false
unfolding bytes_eq
pending-ne-latest = refl

module _ {Db Batch Txn : Type 0} {badger : Badger Db Batch Txn} (h : Healthy badger) (env : Env)
    (rt : RoundTrips env.versions_codec) (rt' : RoundTrips env.clipboard_codec) where
  abbrev Bw : Type 0
  Bw = BatchWriter Db Batch

  -- the record of a version
  abbrev pub clipboard_of : ℕ → Meta → Bytes → ℕ → Clipboard
  clipboard_of version m sum size = record {
    sequence = version;
    expire_at = env.expiry m.ttl;
    compressed = m.compressed;
    master_key_nonce = m.master_key_nonce;
    key_nonce = m.key_nonce;
    iv = m.iv;
    checksum = sum;
    size = size;
  }

  abbrev latest_entry : ℕ → Meta → Bytes → ℕ → Entry
  latest_entry version m sum size = record {
    key = latest_key;
    value = (rt' (clipboard_of version m sum size)).0;
    ttl = some m.ttl;
  }

  module _ {R : Type 0} (stream : StreamReader R) where
    record Committed (m : Meta) (len : ℕ) (r : R) (bw : Bw) (out : Result ℕ × Bw) : Type 0 where
      after : Bw
      result : out ≡ (ok len, after)
      sees :
          (k : Bytes)
          → bytes_eq pending_key k ≡ false
          → badger.get after.b.db k ≡ (
              if bytes_eq latest_key k
              then found (latest_entry bw.version m (stream.checksum r) len).value
              else view h rt bw k)
      same_version : after.version ≡ bw.version
      held : Versions
      lock : Locks h rt after.b.db held

    commit_version-Committed :
        (m : Meta) (len : ℕ) (r : R) (bw : Bw)
        → Open h rt bw
        → lasting (latest_entry bw.version m (stream.checksum r) len) ≡ true
        → Committed m len r bw (commit_version badger env stream m len r bw)
    unfolding commit_version
    commit_version-Committed m len r bw o l =
        let e = latest_entry bw.version m (stream.checksum r) len in
        let p = put_entry-Put h env rt e bw o l latest-ne-pending in
        rw
          (
            (rt' (clipboard_of bw.version m (stream.checksum r) len)).1,
            p.result,
            flush-lem h rt p.after,
          )
          (record {
            after = flushed h rt p.after;
            result = refl;
            sees = λ k ne. get-flushed h rt p.after k p.is_open.sound ∙ p.sees k ne;
            same_version = flushed-version h rt p.after ∙ p.same_version;
            held = p.is_open.held;
            lock = flushed-Locks h rt p.after p.is_open.held p.is_open.sound p.is_open.lock;
          })

    -- What `WriteBatch` leaves in `b'` when it stored the bytes `all` as version `v`.
    pub record Stored (v : ℕ) (m : Meta) (sum : Bytes) (k : ℕ) (all : Bytes) (b : BadgerDb Db)
        (out : Option (Result ℕ × BadgerDb Db)) : Type 0 where
      pub after : BadgerDb Db
      pub result : out ≡ some (ok (length all), after)
      pub latest : Bytes
      pub at_latest : badger.get after.db latest_key ≡ found latest
      pub decoded : env.clipboard_codec.unmarshal latest ≡ ok (clipboard_of v m sum (length all))
      pub chunks :
          (j : Bytes)
          → bytes_eq pending_key j ≡ false
          → bytes_eq latest_key j ≡ false
          → badger.get after.db j
            ≡ written
                (chunk_entries env.ulid v b.ulids (pieces b.chunk_size k all))
                j
                (badger.get b.db j)
      pub locks : Versions
      pub at_pending : Locks h rt after.db locks
      pub unlocked : holds (decimal v) locks ≡ false

    Stored-finish :
        (v : ℕ) (m : Meta) (sum : Bytes) (k : ℕ) (all : Bytes) (b : BadgerDb Db)
        (out : Option (Result (ℕ × R) × Bw))
        → above 999_999_999 m.ttl ≡ true
        → Looped h env rt stream
            (pieces b.chunk_size k all)
            (length all)
            sum
            (new_batch_writer badger env.versions_codec b v)
            out
        → Stored v m sum k all b (finish badger env stream m out)
    unfolding finish new_batch_writer
    Stored-finish v m sum k all b out t l =
        let c = commit_version-Committed m (length all) l.reader l.after l.is_open t in
        let r = release-Released h rt c.after c.held c.lock in
        record {
          after = (release badger env.versions_codec c.after).1.b;
          result = rw (l.result, c.result);
          latest = (latest_entry l.after.version m (stream.checksum l.reader) (length all)).value;
          at_latest =
              r.sees latest_key pending-ne-latest
              ∙ c.sees latest_key pending-ne-latest
              ∙ rw (bytes_eq_refl latest_key);
          decoded =
              (rt' (clipboard_of l.after.version m (stream.checksum l.reader) (length all))).2
              ∙ ap₂ (λ w x. ok (clipboard_of w m x (length all))) l.same_version l.checksum;
          chunks = λ j ne nl.
              r.sees j ne
              ∙ c.sees j ne
              ∙ not_latest j _ nl (view h rt l.after j)
              ∙ l.sees j ne
              ∙ ap
                  (λ es.
                    written (chunk_entries env.ulid v b.ulids (pieces b.chunk_size k all)) j
                      (written es j (badger.get b.db j)))
                  h.entries_new;
          locks = r.held;
          at_pending = r.lock;
          unlocked =
              ap (λ w. holds (decimal w) r.held) (sym (c.same_version ∙ l.same_version))
              ∙ r.unlocked;
        }
      where
        not_latest :
            (j : Bytes) (x : Get)
            → bytes_eq latest_key j ≡ false
            → (y : Get) → (if bytes_eq latest_key j then x else y) ≡ y
        not_latest j x nl y = rw nl

    -- `WriteBatch` of a stream that fills `k` buffers from the bytes `all`, and then ends with the
    -- rest of them, returns their number, if it has more than `k` rounds, the time to live is
    -- above a second, the list of locked versions can be read, and the database and the encodings
    -- keep their laws. The database then has under LATEST the record of the version, with the
    -- checksum of the stream, and under the version's chunk keys the pieces of `all` in order, of
    -- the chunk size each but for a shorter last one. Every other key but PENDING is untouched,
    -- and the version is not locked.
    pub write_batch-Stored :
        (k rounds v : ℕ) (r : R) (m : Meta) (b : BadgerDb Db) (all sum : Bytes) (locks : Versions)
        → k < rounds
        → Yields stream b.chunk_size k r all eof sum
        → above 999_999_999 m.ttl ≡ true
        → Locks h rt b.db locks
        → Stored v m sum k all b (write_batch badger env stream rounds (ok v) r m b)
    unfolding write_batch new_batch_writer
    write_batch-Stored k rounds v r m b all sum locks l y t q = Stored-finish v m sum k all b _ t (
        Looped-at h env rt stream (pieces b.chunk_size k all) sum
          (new_batch_writer badger env.versions_codec b v)
          (copy_loop badger env stream rounds r (replicate b.chunk_size 0) 0
            (new_batch_writer badger env.versions_codec b v))
          (omega arith)
          (copy_loop-Looped h env rt stream b.chunk_size k rounds r (replicate b.chunk_size 0) all
            sum 0 (new_batch_writer badger env.versions_codec b v) (length-replicate b.chunk_size 0)
            l y opened))
      where
        opened : Open h rt (new_batch_writer badger env.versions_codec b v)
        opened = record { sound = subst Sound (sym h.entries_new) tt; held = locks; lock = q }
