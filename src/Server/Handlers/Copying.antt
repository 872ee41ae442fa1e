-- ===== src/Server/Handlers/Copying.antt =====
-- What `Copy` of server/clipboard.go does with a stream of messages.
use webcb.Base.{
  ℕ, ◌+◌, ◌<◌, ◌≤◌, ◌≡◌, refl, true, List, [], ◌∷◌, arith, Option, some, Result, ok, err, Error,
  eof, Bytes, length, concat,
}
use webcb.Base.Int.{above}
use webcb.Stream.Reader.{Reader, new_reader}
use webcb.Storage.Badger.{Badger, Healthy}
use webcb.Storage.Batch.{Versions, BadgerDb}
use webcb.Storage.Batch.Laws.{RoundTrips, Locks}
use webcb.Storage.Write.{Env, Meta, write_batch}
use webcb.Storage.Write.Laws.{Yields}
use webcb.Storage.Write.Stored.{Stored, write_batch-Stored}
use webcb.Messages.{CopyInfo, CopyStream, Incoming, recv}
use webcb.Server.Streams.{GrpcReceiver, receiver, next}
use webcb.Server.Handlers.{Outcome, copy, copy_first, closing, ttl_of, meta_of, stream_reader}
use webcb.Server.Handlers.Chunks.{Fits, fit, Delivers-Yields, arrivals, arrivals-Delivers}

module _ {Db Batch Txn : Type 0} {badger : Badger Db Batch Txn} (h : Healthy badger) (env : Env)
    (rt : RoundTrips env.versions_codec) (rt' : RoundTrips env.clipboard_codec) where
  abbrev reader_of : Incoming CopyStream → Reader GrpcReceiver
  reader_of srv = new_reader (record { srv = srv; checksum = [] })

  -- The handler closed the stream, after a batch that stored the bytes `all` as version `v`.
  pub record Kept (v : ℕ) (m : Meta) (sum all : Bytes) (closed : Option Error) (rounds : ℕ)
      (b : BadgerDb Db) (out : Option (Outcome × BadgerDb Db)) : Type 0 where
    pub k : ℕ
    pub fits : Fits b.chunk_size k (length all)
    pub batch : Option (Result ℕ × BadgerDb Db)
    pub stored : Stored h env rt rt' (stream_reader rounds) v m sum k all b batch
    pub returned : out ≡ some (Outcome.returns closed, stored.after)

  -- `Copy` of an info header, any chunks, and then the end of the stream, which `next` sees as the
  -- checksum `sum` or none, stores the bytes of the chunks in their order, however they were cut,
  -- and ends with what closing the stream returns. The conditions: a database and encodings that
  -- keep their laws, more rounds than chunks and bytes, a chunk size that is not 0, a time to live
  -- above a second, and a readable list of locked versions.
  pub copy-Kept :
      (rounds v : ℕ) (closed : Option Error) (fi : CopyInfo) (cs : List Bytes)
      (t t' : Incoming CopyStream) (sum : Bytes) (b : BadgerDb Db) (locks : Versions)
      → next (record { srv = t; checksum = [] }) ≡ (err eof, record { srv = t'; checksum = sum })
      → length cs + length (concat cs) < rounds
      → 0 < b.chunk_size
      → above 999_999_999 (ttl_of fi) ≡ true
      → Locks h rt b.db locks
      → Kept v
          (meta_of fi)
          sum
          (concat cs)
          closed
          rounds
          b
          (copy badger env rounds closed (ok v) (ok (CopyStream.info fi) ∷ arrivals cs t) b)
  unfolding copy copy_first closing recv new_reader
  copy-Kept rounds v closed fi cs t t' sum b locks ends l p life q = record {
    k = f.0;
    fits = f.2;
    batch = _;
    stored = st;
    returned = rw st.result;
  }
    where
      f : (k : ℕ) × (k ≤ length (concat cs)) × Fits b.chunk_size k (length (concat cs))
      f = fit b.chunk_size (length (concat cs)) (length (concat cs)) p (omega arith)

      yields :
          Yields
            (stream_reader rounds)
            b.chunk_size
            f.0
            (reader_of (arrivals cs t))
            (concat cs)
            eof
            sum
      yields =
          Delivers-Yields receiver rounds b.chunk_size f.0 (length cs) (reader_of (arrivals cs t))
            (concat cs) eof (record { srv = t'; checksum = sum }) (omega arith) p refl
            (arrivals-Delivers cs t t' [] sum ends) f.2

      st : Stored h env rt rt' (stream_reader rounds) v (meta_of fi) sum f.0 (concat cs) b (
          write_batch badger env
            (stream_reader rounds)
            rounds
            (ok v)
            (reader_of (arrivals cs t))
            (meta_of fi)
            b)
      st =
          write_batch-Stored h env rt rt' (stream_reader rounds) f.0 rounds v
            (reader_of (arrivals cs t)) (meta_of fi) b (concat cs) sum locks (omega (arith, f.1))
            yields life q
