-- ===== src/Storage/Write.antt =====
-- `WriteBatch` of storage/badger.go: a stream of bytes is stored as the chunks of a new version, and
-- then a record of the version under the key LATEST.
pub mod Laws
pub mod Counting
pub mod Locking
pub mod Guarding
pub mod Sparing
pub mod Loop
pub mod Stored
use webcb.Base.{
  ℕ, zero, suc, ◌+◌, Bool, true, false, List, [], Option, none, some, Result, ok, err, Error, eof,
  wrapped, Bytes, String, length, take, replicate, ltb, if◌then◌else◌,
}
use webcb.Base.Int.{ℤ}
use webcb.Base.Exec.{Exec, pure, raise, go_on, ◌>>=◌, ◌>>◌}
use webcb.Stream.{ReadOut}
use webcb.Storage.Badger.{Entry, Badger, Codec}
use webcb.Storage.Keys.{latest_key, chunk_key}
use webcb.Storage.Batch.{
  Versions, BadgerDb, BatchWriter, new_batch_writer, validate, set_entry, flush, release,
}

-- The message `Clipboard`; the text of `expire_at` is made from a clock reading.
pub record Clipboard : Type 0 where
  pub sequence : ℕ
  pub expire_at : Bytes
  pub compressed : Bool
  pub master_key_nonce : Bytes
  pub key_nonce : Bytes
  pub iv : Bytes
  pub checksum : Bytes
  pub size : ℕ

-- The interface `StreamReader`; `none` is a call that does not return.
pub record StreamReader (R : Type 0) : Type 0 where
  pub read : R → Bytes → Option (ReadOut R)
  pub checksum : R → Bytes

-- `errors.Is(err, io.EOF)`
unfoldable pub is_eof : Error → Bool
is_eof eof = true
is_eof (wrapped s e) = is_eof e
is_eof _ = false

-- What the program takes from elsewhere: ULIDs, the text of an expiry, and message encodings.
pub record Env : Type 0 where
  pub ulid : ℕ → Bytes
  pub expiry : ℤ → Bytes
  pub versions_codec : Codec Versions
  pub clipboard_codec : Codec Clipboard

-- What the caller of `WriteBatch` says of the data.
pub record Meta : Type 0 where
  pub ttl : ℤ
  pub compressed : Bool
  pub master_key_nonce : Bytes
  pub key_nonce : Bytes
  pub iv : Bytes

module _ {Db Batch Txn : Type 0} (badger : Badger Db Batch Txn) (env : Env) where
  abbrev Bw : Type 0
  Bw = BatchWriter Db Batch

  -- `mustNewULID`, and the key with it
  new_key : Exec Bw Bytes
  new_key bw = (
    ok (chunk_key bw.version (env.ulid bw.b.ulids)),
    record bw { b = record bw.b { ulids = suc bw.b.ulids } },
  )

  pub put_entry : Entry → Exec Bw (Unit {0})
  put_entry e = do
    validate badger env.versions_codec e.key e.value
    set_entry badger env.versions_codec e

  -- one chunk of the stream
  pub put_chunk : Bytes → Exec Bw (Unit {0})
  unfolding new_key put_entry
  put_chunk value = do key ← new_key; put_entry (record { key = key; value = value; ttl = none })

  module _ {R : Type 0} (stream : StreamReader R) where
    -- the bytes written and the stream, when the loop breaks
    abbrev pub Copied : Type 0
    Copied = Option (Result (ℕ × R) × Bw)

    -- a chunk is stored, and what follows
    and_then : Result (Unit {0}) × Bw → (Bw → Copied) → Copied
    and_then (ok _, bw) k = k bw
    and_then (err e, bw) k = some (err e, bw)

    -- What the loop does with the result of a read.
    after_read : Option (ReadOut R) → ℕ → Bw → (R → Bytes → ℕ → Bw → Copied) → Copied
    unfolding put_chunk and_then is_eof
    after_read none written bw go = none
    after_read (some out) written bw go = elim out.error [
      | none ↦
          and_then (put_chunk (take out.n out.buf) bw) (go out.reader out.buf (written + out.n))
      | some e ↦
          if is_eof e
          then if ltb 0 out.n
            then and_then (put_chunk (take out.n out.buf) bw)
                (λ bw'. some (ok (written + out.n, out.reader), bw'))
            else some (ok (written, out.reader), bw)
          else some (err e, bw)
    ]

    -- The loop, with at most so many rounds.
    pub copy_loop : ℕ → R → Bytes → ℕ → Bw → Copied
    unfolding after_read
    copy_loop zero r buf written bw = none
    copy_loop (suc rounds) r buf written bw =
        after_read (stream.read r buf) written bw (copy_loop rounds)

    -- From the loop's end on: the record of the version, and the flush.
    pub commit_version : Meta → ℕ → R → Exec Bw ℕ
    commit_version m written r = do
      value ← (λ bw. (
        env.clipboard_codec.marshal (record {
          sequence = bw.version;
          expire_at = env.expiry m.ttl;
          compressed = m.compressed;
          master_key_nonce = m.master_key_nonce;
          key_nonce = m.key_nonce;
          iv = m.iv;
          checksum = stream.checksum r;
          size = written;
        }),
        bw,
      ))
      put_entry (record { key = latest_key; value = value; ttl = some m.ttl })
      flush badger env.versions_codec
      pure written

    -- the deferred `Release`, whose error is only logged
    released : Result ℕ × Bw → Result ℕ × BadgerDb Db
    released (r, bw) = (r, (release badger env.versions_codec bw).1.b)

    finish : Meta → Copied → Option (Result ℕ × BadgerDb Db)
    unfolding commit_version released
    finish m none = none
    finish m (some (err e, bw)) = some (released (err e, bw))
    finish m (some (ok (written, r), bw)) = some (released (commit_version m written r bw))

    -- `WriteBatch`, with what `seq.Next` returned.
    pub write_batch : ℕ → Result ℕ → R → Meta → BadgerDb Db → Option (Result ℕ × BadgerDb Db)
    unfolding finish copy_loop
    write_batch rounds (err e) r m b = some (err e, b)
    write_batch rounds (ok version) r m b = finish m (
        copy_loop rounds r (replicate b.chunk_size 0) 0
          (new_batch_writer badger env.versions_codec b version))
