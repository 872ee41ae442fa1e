-- ===== src/Tests/Transfers.antt =====
-- Runs of the client, against the server over a database in memory.
use webcb.Base.{
  ℕ, ◌+◌, ◌≡◌, refl, inl, inr, true, false, List, [], ◌∷◌, ◌++◌, arith, Option, none, some, ok,
  Error, eof, unexpected_eof, Bytes, length, length-replicate, take, drop, replicate, ltb, ◌==◌,
  if◌then◌else◌,
}
use webcb.Base.Int.{pos, above}
use webcb.Messages.{CopyStream, PastStream, PastInfo, Incoming, InOrder, Accepts}
use webcb.Crypto.{Crypto, derive_password, derive_master_key}
use webcb.Server.Handlers.{ttl_of, exceeds}
use webcb.Client.Options.{
  CopyOption, PasteOption, copy_config, default_copy_config, paste_config, default_paste_config,
}
use webcb.Client.Copy.{Source, Keys, prepared, new_keys, copy}
use webcb.Client.Copy.Loop.{Supplies}
use webcb.Client.Copy.Laws.{Closes, Sent, header_of, copy-Sent}
use webcb.Stream.Reader.{new_reader}
use webcb.Server.Handlers.Pasting.{chunk_messages, checksum_messages}
use webcb.Client.Streams.Laws.{delivered, sent-Delivers}
use webcb.Client.Paste.{Sink, sha256_size, layered, paste}
use webcb.Client.Paste.Gives.{Gives}
use webcb.Client.Paste.Plain.{bare-Gives}
use webcb.Client.Paste.Laws.{Takes, Received, paste-Received}
use webcb.Client.Paste.Opened.{Draws}
use webcb.Transfer.{Transferred, transfer}
use webcb.Tests.Store.{memory-Healthy}
use webcb.Tests.Codecs.{versions-RoundTrips, clipboard-RoundTrips, ulid-Monotonic, env}
use webcb.Tests.Examples.{srv, srv-InOrder, srv-Accepts, text_of, small_db, small_db-Locks, config}
use webcb.Tests.Layers.{Dst, client, writers, pack, shift, stacks, readers, bare, opens}

client-InOrder : InOrder client
client-InOrder = record { accepted = λ s m h. refl; refused = λ s m x h. absurd (ground arith) }

client-Accepts : Accepts client
client-Accepts s m = refl

abbrev close_and_recv : List CopyStream → Option Error × List CopyStream
close_and_recv s = (none, s)

close_and_recv-Closes : Closes client close_and_recv
close_and_recv-Closes = record { accepts = λ s. refl; keeps = λ s. refl }

-- the bytes themselves are the state
abbrev source : Source Bytes
source = record {
  read_at_least = λ i n.
      if ltb (length i) n
      then (if length i == 0 then (([], some eof), i) else ((i, some unexpected_eof), []))
      else ((take n i, none), drop n i);
}

abbrev data_in : Bytes
data_in = 1 ∷ 2 ∷ 3 ∷ 4 ∷ 5 ∷ 6 ∷ 7 ∷ []

abbrev parts : List Bytes
parts = (1 ∷ 2 ∷ 3 ∷ []) ∷ (4 ∷ 5 ∷ 6 ∷ []) ∷ (7 ∷ []) ∷ []

source-Supplies : Supplies source 3 data_in parts
source-Supplies = (
  none,
  _,
  refl,
  inl refl,
  (none, _, refl, inl refl, (some unexpected_eof, _, refl, inr refl, (_, refl))),
)

abbrev total : Bytes → ℕ
total [] = 0
total (b ∷ p) = b + total p

abbrev pub crypto : Crypto ℕ
crypto = record {
  scrypt = λ pwd salt n r p len. ok (replicate len (total pwd));
  hkdf = λ secret salt len. ok (replicate len (total secret));
  stream = λ key. ok (total key);
  stream_nonce_size = λ k. 4;
  draw = λ i n. replicate n i;
  sha256 = λ p. total p ∷ replicate 31 0;
}

crypto-Draws : Draws crypto
crypto-Draws i n = length-replicate n i

crypto-hash_size : (p : Bytes) → length (crypto.sha256 p) ≡ sha256_size
crypto-hash_size p = refl

abbrev pub sink : Sink Bytes
sink = record { write = λ o p. (none, o ++ p) }

abbrev held : Bytes → Bytes
held o = o

sink-Takes : Takes sink held
sink-Takes = record { accepts = λ o p. refl; keeps = λ o p. refl }

abbrev opts : List CopyOption
opts =
    CopyOption.with_transfer_rate (pos 3)
    ∷ CopyOption.with_checksum true
    ∷ CopyOption.with_compression true
    ∷ CopyOption.with_encryption true
    ∷ []

abbrev pub opts_past : List PasteOption
opts_past = PasteOption.with_transfer_rate (pos 5) ∷ []

abbrev keys : Keys ℕ
keys = record {
  cipher = 32_768;
  master_key_nonce = replicate 32 0;
  key_nonce = replicate 32 1;
  iv = 2 ∷ 2 ∷ 2 ∷ 2 ∷ [];
}

abbrev pub password : Bytes
password = 20 ∷ 12 ∷ []

opts-size : (copy_config opts default_copy_config).chunk_size ≡ pos 3
unfolding copy_config default_copy_config
opts-size = refl

pub opts_past-size : (paste_config opts_past default_paste_config).chunk_size ≡ pos 5
unfolding paste_config default_paste_config
opts_past-size = refl

keys_prepared :
    prepared client close_and_recv source crypto writers
      (copy_config opts default_copy_config)
      (ok password)
    ≡ ok (some keys, some (Dst.mapped 1))
unfolding prepared new_keys derive_password derive_master_key copy_config default_copy_config
keys_prepared = refl

opts-ttl :
    above 999_999_999 (ttl_of (header_of (copy_config opts default_copy_config) (some keys))) ≡ true
unfolding ttl_of copy_config default_copy_config
opts-ttl = refl

pub rate_allowed : exceeds (pos 5) config.grpc_max_recv_size ≡ false
unfolding exceeds
rate_allowed = refl

transfer_example :
    Transferred client close_and_recv source crypto writers client-InOrder client-Accepts
      close_and_recv-Closes stacks crypto-Draws crypto-hash_size
      (readers 20)
      sink
      sink-Takes
      (opens 20)
      srv
      srv-InOrder
      srv-Accepts
      memory-Healthy
      env
      versions-RoundTrips
      clipboard-RoundTrips
      ulid-Monotonic
      text_of
      4
      20
      1
      5
      opts
      opts_past
      data_in
      []
      (ok password)
      small_db
      config
      []
      []
      data_in
transfer_example =
    transfer client close_and_recv source crypto writers client-InOrder client-Accepts
      close_and_recv-Closes stacks crypto-Draws crypto-hash_size (readers 20) sink sink-Takes
      (opens 20) srv srv-InOrder srv-Accepts memory-Healthy env versions-RoundTrips
      clipboard-RoundTrips ulid-Monotonic text_of 4 20 1 3 5 opts opts_past data_in parts
      (some keys) (some (Dst.mapped 1)) [] (ok password) small_db [] config [] [] opts-size
      (omega arith) (omega arith) source-Supplies keys_prepared refl refl (omega arith) (bare 20)
      (omega arith) opts-ttl small_db-Locks (λ k h. refl) opts_past-size rate_allowed (omega arith)

copy-Sent_example :
    Sent client 3
      (header_of (copy_config opts default_copy_config) (some keys))
      (shift 32_768 (pack data_in))
      (28 ∷ replicate 31 0)
      7
      []
      (copy client close_and_recv source crypto writers 4 opts (ok []) data_in (ok password))
unfolding copy_config default_copy_config
copy-Sent_example =
    copy-Sent client close_and_recv source crypto writers client-InOrder client-Accepts
      close_and_recv-Closes stacks 4 3 opts data_in parts (some keys) (some (Dst.mapped 1)) []
      (ok password) opts-size (omega arith) (omega arith) source-Supplies keys_prepared

-- a paste without layers, of one message
abbrev info : PastInfo
info = record {
  checksum = true;
  compressed = false;
  master_key_nonce = [];
  key_nonce = [];
  iv = [];
}

abbrev plain_start : Incoming PastStream
plain_start = delivered (chunk_messages (data_in ∷ []) ++ checksum_messages (crypto.sha256 data_in))

info-layered :
    layered crypto
      (readers 20)
      sink
      info
      (ok [])
      ((readers 20).base (new_reader (record { c = plain_start; checksum = [] })))
    ≡ ok ((readers 20).base (new_reader (record { c = plain_start; checksum = [] })))
unfolding layered
info-layered = refl

plain-Gives :
    Gives
      (readers 20).read
      (λ s. ((readers 20).bottom s).r.checksum)
      5
      1
      ((readers 20).base (new_reader (record { c = plain_start; checksum = [] })))
      data_in
      eof
      (crypto.sha256 data_in)
unfolding new_reader
plain-Gives =
    bare-Gives 20 (bare 20) 5 1 1 (new_reader (record { c = plain_start; checksum = [] })) data_in
      eof (record { c = []; checksum = crypto.sha256 data_in }) (omega arith) (omega arith) refl
      (sent-Delivers (data_in ∷ []) (crypto.sha256 data_in)) (omega arith, omega arith)

paste-Received_example :
    Received crypto (readers 20) sink sink-Takes info (crypto.sha256 data_in) data_in [] (
      paste crypto
        (readers 20)
        sink
        2
        opts_past
        (λ rate. ok (ok (PastStream.info info) ∷ plain_start))
        (ok [])
        [])
paste-Received_example =
    paste-Received crypto (readers 20) sink sink-Takes 2 5 1 opts_past
      (λ rate. ok (ok (PastStream.info info) ∷ plain_start)) (ok []) [] info plain_start _
      (crypto.sha256 data_in) data_in opts_past-size refl info-layered plain-Gives (omega arith)
