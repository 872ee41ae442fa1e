-- ===== src/Client/Copy.antt =====
-- `Copy` of client/client.go.
pub mod Layered
pub mod Loop
pub mod Stacked
pub mod Laws
use webcb.Base.{
  ℕ, zero, suc, ◌+◌, Bool, true, false, List, [], ◌∷◌, ◌++◌, Option, none, some, Result, ok, err,
  Error, eof, unexpected_eof, wrapped, Bytes, length, replicate, if◌then◌else◌,
}
use webcb.Base.Int.{ℤ, pos, negsuc}
use webcb.Base.Try.{◌>>=◌, ◌>>◌}
use webcb.Stream.Writer.{Writer, new_writer, flush}
use webcb.Storage.Write.{is_eof}
use webcb.Messages.{CopyStream, Outgoing}
use webcb.Crypto.{Crypto, nonce_size, derive_password, derive_master_key}
use webcb.Client.Options.{CopyConfig, CopyOption, default_copy_config, copy_config}
use webcb.Client.Streams.{CopySender, send_info, copy_sender}
use webcb.Client.Counter.{WriteCounter, bytes_write_counter}
use webcb.Client.Layers.{Writers}

-- `Summary`, without the duration and the rate, which depend on a clock.
pub record Summary : Type 0 where
  pub bytes_read : ℕ
  pub byte_write : ℕ
  pub checksum : Bytes
  pub encrypted : Bool
  pub compressed : Bool

-- What encryption needs, and the receiver has to know.
pub record Keys (K : Type 0) : Type 0 where
  pub cipher : K
  pub master_key_nonce : Bytes
  pub key_nonce : Bytes
  pub iv : Bytes

-- `errors.Is(err, io.ErrUnexpectedEOF)`
unfoldable pub is_unexpected_eof : Error → Bool
is_unexpected_eof unexpected_eof = true
is_unexpected_eof (wrapped s e) = is_unexpected_eof e
is_unexpected_eof _ = false

-- `secret.Read`, and the key that is derived from the password
unfoldable pub new_keys : {K : Type 0} → Crypto K → Result Bytes → Result (Keys K)
new_keys crypto secret = do
  pwd ← secret
  let master_key_nonce = crypto.draw 0 nonce_size
  master_key ← derive_password crypto pwd master_key_nonce
  let key_nonce = crypto.draw 1 nonce_size
  key ← derive_master_key crypto master_key key_nonce
  cipher ← crypto.stream key
  ok (record {
    cipher = cipher;
    master_key_nonce = master_key_nonce;
    key_nonce = key_nonce;
    iv = crypto.draw 2 (crypto.stream_nonce_size cipher);
  })

-- `io.Reader` of the data: what `io.ReadAtLeast` of so many bytes puts in the buffer, and its error
pub record Source (I : Type 0) : Type 0 where
  pub read_at_least : I → ℕ → (Bytes × Option Error) × I

module _ {S I K Dst : Type 0} (client : Outgoing S CopyStream)
    (close_and_recv : S → Option Error × S) (source : Source I) (crypto : Crypto K)
    (writers : Writers (WriteCounter (Writer (CopySender S))) K Dst) where
  abbrev pub Cnt : Type 0
  Cnt = WriteCounter (Writer (CopySender S))

  -- what the loop has read and hashed when it ends, and the writer
  pub record Copied : Type 0 where
    pub dst : Dst
    pub bytes_read : ℕ
    pub hashed : Bytes

  abbrev pub Loop : Type 0
  Loop = Option (Result Copied)

  -- what the first error of a `Close` is, and what is left
  closed : Option (Option Error × Dst) → (Dst → Loop) → Loop
  closed none k = none
  closed (some (some e, d)) k = some (err e)
  closed (some (none, d)) k = k d

  -- a layer is closed if it was made
  close_if : Bool → Dst → (Dst → Loop) → Loop
  unfolding closed
  close_if made d k = if made then closed (writers.close d) k else k d

  -- after a `Write`
  wrote : Option ((ℕ × Option Error) × Dst) → (Dst → Loop) → Loop
  wrote none k = none
  wrote (some ((n, some e), d)) k = some (err e)
  wrote (some ((n, none), d)) k = k d

  module _ (config : CopyConfig) where
    -- `hasher.Write`, if there is a hasher; it never fails
    hash_on : Bytes → Bytes → Bytes
    hash_on hashed p = if config.checksum then hashed ++ p else hashed

    -- What the loop does with the bytes and the error of a read.
    after_input : (Bytes × Option Error) × I → Dst → ℕ → Bytes → (I → Dst → ℕ → Bytes → Loop) → Loop
    unfolding wrote close_if hash_on is_unexpected_eof is_eof
    after_input ((p, none), i) d read hashed go =
        wrote (writers.write d p) (λ d'. go i d' (read + length p) (hash_on hashed p))
    after_input ((p, some e), i) d read hashed go =
        if is_eof e
        then (close_if config.compression d λ d'.
            close_if config.encryption d' λ d''.
              some (ok (record { dst = d''; bytes_read = read + length p; hashed = hashed })))
        else if is_unexpected_eof e
        then wrote (writers.write d p) (λ d'. go i d' (read + length p) (hash_on hashed p))
        else some (err e)

    -- The loop, with at most so many rounds, and buffers of `n` bytes.
    pub copy_data : ℕ → ℕ → I → Dst → ℕ → Bytes → Loop
    unfolding after_input
    copy_data zero n i d read hashed = none
    copy_data (suc rounds) n i d read hashed =
        after_input (source.read_at_least i n) d read hashed (copy_data rounds n)

    -- The summary, when the stream is closed.
    received : Copied → Bytes → ℕ → Option Error × S → Result Summary × S
    received c checksum sent (some e, s) = (err e, s)
    received c checksum sent (none, s) = (
      ok (record {
        bytes_read = c.bytes_read;
        byte_write = sent;
        checksum = checksum;
        encrypted = config.encryption;
        compressed = config.compression;
      }),
      s,
    )

    -- after the flush: `CloseAndRecv`
    flushed : Copied → Bytes → ℕ → Option Error × Writer (CopySender S) → Result Summary × S
    unfolding received
    flushed c checksum sent (some e, gw) = (err e, gw.s.c)
    flushed c checksum sent (none, gw) = received c checksum sent (close_and_recv gw.s.c)

    -- The flush, and the rest; an error leaves the stream open, and says nothing of it.
    finish : Loop → Option (Result (Result Summary × S))
    unfolding flushed
    finish none = none
    finish (some (err e)) = some (err e)
    finish (some (ok c)) =
        let checksum = if config.checksum then crypto.sha256 c.hashed else [] in
        let cnt = writers.bottom c.dst in
        some (ok (flushed c checksum cnt.sent (flush (copy_sender client) cnt.w checksum)))

    -- the layers that the options ask for
    pub layered : Option (Keys K) → Option (Dst → Dst) → Cnt → Dst
    layered none none cnt = writers.base cnt
    layered none (some compress) cnt = compress (writers.base cnt)
    layered (some k) none cnt = writers.encrypter k.cipher k.iv (writers.base cnt)
    layered (some k) (some compress) cnt =
        compress (writers.encrypter k.cipher k.iv (writers.base cnt))

    -- after `sendInfo`
    started :
        ℕ
        → ℕ
        → I
        → Option (Keys K)
        → Option (Dst → Dst)
        → Option Error × S
        → Option (Result (Result Summary × S))
    unfolding finish layered copy_data
    started rounds n i keys compress (some e, s) = some (err e)
    started rounds n i keys compress (none, s) =
        let cnt =
          bytes_write_counter (new_writer (record { c = s; bytes_sent = 0 }) (replicate n 0)) in
        finish (copy_data rounds n i (layered keys compress cnt) 0 [])

    info_sent : S → Option (Keys K) → Option Error × S
    info_sent s none = send_info client s config.ttl config.compression [] [] []
    info_sent s (some k) =
        send_info client s config.ttl config.compression k.master_key_nonce k.key_nonce k.iv

    -- the keys if the data is to be encrypted, the encoder if it is to be compressed
    unfoldable pub prepared : Result Bytes → Result (Option (Keys K) × Option (Dst → Dst))
    unfolding new_keys
    prepared secret = do
      keys ← if config.encryption then (new_keys crypto secret >>= λ k. ok (some k)) else ok none
      compress ← if config.compression then (writers.compressor >>= λ f. ok (some f)) else ok none
      ok (keys, compress)

    go_prepared :
        ℕ
        → ℕ
        → I
        → S
        → Result (Option (Keys K) × Option (Dst → Dst))
        → Option (Result (Result Summary × S))
    unfolding started info_sent
    go_prepared rounds n i s (err e) = some (err e)
    go_prepared rounds n i s (ok (keys, compress)) =
        started rounds n i keys compress (info_sent s keys)

    -- the buffer of `ChunkSize` bytes: `make` panics on a negative size
    sized : ℕ → ℤ → I → S → Result Bytes → Option (Result (Result Summary × S))
    unfolding go_prepared prepared
    sized rounds (pos n) i s secret = go_prepared rounds n i s (prepared secret)
    sized rounds (negsuc n) i s secret = none

  opened : ℕ → CopyConfig → Result S → I → Result Bytes → Option (Result (Result Summary × S))
  unfolding sized
  opened rounds config (err e) i secret = some (err e)
  opened rounds config (ok s) i secret = sized config rounds config.chunk_size i s secret

  -- `Copy`. `stream` is what the call opens, `secret` what the secret manager reads. An error comes
  -- with the stream, once data was flushed; `none` is a call that does not return.
  pub copy :
      ℕ → List CopyOption → Result S → I → Result Bytes → Option (Result (Result Summary × S))
  unfolding opened default_copy_config copy_config
  copy rounds opts stream i secret =
      opened rounds (copy_config opts default_copy_config) stream i secret
