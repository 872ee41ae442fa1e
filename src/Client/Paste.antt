-- ===== src/Client/Paste.antt =====
-- `Paste` of client/client.go.
pub mod Gives
pub mod Laws
pub mod Opened
pub mod Refused
pub mod Plain
use webcb.Base.{
  ℕ, zero, suc, ◌+◌, ◌-◌, Bool, true, false, ◌&&◌, not, List, [], ◌∷◌, ◌++◌, Option, none, some,
  Result, ok, err, Error, message, Bytes, bytes_eq, length, take, replicate, ltb, ◌==◌, String,
  if◌then◌else◌,
}
use webcb.Base.Int.{ℤ, pos, negsuc}
use webcb.Base.Try.{◌>>=◌, ◌>>◌}
use webcb.Stream.{ReadOut}
use webcb.Stream.Reader.{Reader, new_reader, read}
use webcb.Storage.Write.{is_eof}
use webcb.Messages.{PastStream, PastInfo, Incoming, recv}
use webcb.Crypto.{Crypto, nonce_size, derive_password, derive_master_key}
use webcb.Client.Options.{PasteConfig, PasteOption, default_paste_config, paste_config}
use webcb.Client.Streams.{PasteReceiver, paste_receiver}
use webcb.Client.Layers.{Readers}

-- sha256.Size
abbrev pub sha256_size : ℕ
sha256_size = 32

-- A call `Paste` of the server: the rate of its message, and the largest message that gRPC is to
-- receive, as a call option.
pub record PasteCall : Type 0 where
  pub transfer_rate : ℤ
  pub max_recv_msg_size : ℤ

-- `size + 1000`, of an int64
plus_1000 : ℤ → ℤ
plus_1000 (pos n) =
    if ltb (n + 1000) 9_223_372_036_854_775_808
    then pos (n + 1000)
    else negsuc (18_446_744_073_709_551_616 - (n + 1001))
plus_1000 (negsuc n) = if ltb n 1000 then pos (999 - n) else negsuc (n - 1000)

-- the call at a rate
pub call_of : ℤ → PasteCall
unfolding plus_1000
call_of rate = record { transfer_rate = rate; max_recv_msg_size = plus_1000 rate }

-- The `io.Writer` that the data goes to.
pub record Sink (O : Type 0) : Type 0 where
  pub write : O → Bytes → Option Error × O

module _ {K Src O : Type 0} (crypto : Crypto K) (readers : Readers (Reader PasteReceiver) K Src)
    (sink : Sink O) where
  -- what the loop has hashed when it ends, and the reader and writer
  pub record Pasted : Type 0 where
    pub src : Src
    pub out : O
    pub hashed : Bytes

  abbrev pub Loop : Type 0
  Loop = Option (Result Pasted × O)

  module _ (info : PastInfo) where
    hash_on : Bytes → Bytes → Bytes
    hash_on hashed p = if info.checksum then hashed ++ p else hashed

    -- after a `Write` to the output
    put : Option Error × O → (O → Loop) → Loop
    put (some e, out) k = some (err e, out)
    put (none, out) k = k out

    -- What the loop does with a read.
    after_read : Option (ReadOut Src) → O → Bytes → (Src → Bytes → O → Bytes → Loop) → Loop
    unfolding put hash_on is_eof
    after_read none out hashed go = none
    after_read (some o) out hashed go =
        let p = take o.n o.buf in
        elim o.error [
          | none ↦ put (sink.write out p) (λ out'. go o.reader o.buf out' (hash_on hashed p))
          | some e ↦
              if is_eof e
              then if ltb 0 o.n
                then (put (sink.write out p) λ out'.
                    some
                      (ok (record { src = o.reader; out = out'; hashed = hash_on hashed p }), out'))
                else some (ok (record { src = o.reader; out = out; hashed = hashed }), out)
              else some (err e, out)
        ]

    -- The loop, with at most so many rounds.
    pub paste_data : ℕ → Src → Bytes → O → Bytes → Loop
    unfolding after_read
    paste_data zero src buf out hashed = none
    paste_data (suc rounds) src buf out hashed =
        after_read (readers.read src buf) out hashed (paste_data rounds)

    -- the checks of the checksum that was received
    pub verify : Bytes → Bytes → Option Error
    verify received hashed =
        if info.checksum
        then (if length received == sha256_size
            then (if bytes_eq received (crypto.sha256 hashed)
                then none
                else some (message "checksum failed"))
            else some (message "invalid sha256 size"))
        else none

    checked : Loop → Option (Option Error × O)
    unfolding verify
    checked none = none
    checked (some (err e, out)) = some (some e, out)
    checked (some (ok p, out)) = some (verify (readers.bottom p.src).r.checksum p.hashed, out)

    -- the data is encrypted: `secret.Read`, the key, and the reader that decrypts
    decrypting : Result Bytes → Src → Result Src
    decrypting secret src = do
      pwd ← secret
      master_key ← derive_password crypto pwd info.master_key_nonce
      key ← derive_master_key crypto master_key info.key_nonce
      cipher ← crypto.stream key
      ok (readers.decrypter cipher info.iv src)

    -- the layers that the header asks for
    unfoldable pub layered : Result Bytes → Src → Result Src
    unfolding decrypting
    layered secret src = do
      plain ←
          if (length info.master_key_nonce == nonce_size) && (length info.key_nonce == nonce_size)
          then decrypting secret src
          else ok src
      if info.compressed then readers.decompressor plain else ok plain

    run : ℕ → ℕ → Result Src → O → Option (Option Error × O)
    unfolding checked paste_data
    run rounds n (err e) out = some (some e, out)
    run rounds n (ok src) out = checked (paste_data rounds src (replicate n 0) out [])

  -- what `Paste` makes of the first message
  first :
      ℕ → ℕ → Result Bytes → Result PastStream × Incoming PastStream → O → Option (Option Error × O)
  unfolding run layered
  first rounds n secret (err e, c) out = some (some e, out)
  first rounds n secret (ok (PastStream.info info), c) out =
      run info rounds n
        (layered info secret (readers.base (new_reader (record { c = c; checksum = [] })))) out
  first rounds n secret (ok (PastStream.error kind text), c) out = some (some (message text), out)
  first rounds n secret (ok (PastStream.chunk p), c) out =
      some (
        some (message "protocol error: info or error message expected but get a chunk message"),
        out,
      )
  first rounds n secret (ok (PastStream.checksum p), c) out =
      some (
        some (message "protocol error: info or error message expected but get a chunk message"),
        out,
      )
  first rounds n secret (ok PastStream.nothing, c) out =
      some (
        some (message "protocol error: info or error message expected but get a chunk message"),
        out,
      )

  -- what follows the call `Paste` of the server with the rate `ChunkSize`
  called : ℕ → ℤ → Result Bytes → Result (Incoming PastStream) → O → Option (Option Error × O)
  unfolding first recv
  called rounds n secret (err e) out = some (some e, out)
  called rounds (pos n) secret (ok c) out = first rounds n secret (recv c) out
  called rounds (negsuc n) secret (ok c) out = none

  -- `Paste`; `server` is what the server sends on a call. The error, and the output.
  pub paste :
      ℕ
      → List PasteOption
      → (PasteCall → Result (Incoming PastStream))
      → Result Bytes
      → O
      → Option (Option Error × O)
  unfolding called default_paste_config paste_config
  paste rounds opts server secret out =
      let n = (paste_config opts default_paste_config).chunk_size in
      called rounds n secret (server (call_of n)) out
