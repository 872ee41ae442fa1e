-- ===== src/Client/Copy/Laws.antt =====
-- What `Copy` of client/client.go sends.
use webcb.Base.{
  ℕ, ◌+◌, ◌<◌, ◌≡◌, refl, sym, ◌∙◌, ap, List, [], ◌∷◌, ◌++◌, append-nil, arith, Option, none, some,
  Result, ok, Error, Bytes, length, concat, replicate, length-replicate, All, if◌then◌else◌,
}
use webcb.Base.Int.{pos}
use webcb.Stream.Writer.{Writer, new_writer}
use webcb.Stream.Writer.Frames.{Cut, feed, concat-feed, feed-sizes}
use webcb.Stream.Logged.{Logs, messages, arrange, concat-snoc, flush-logged}
use webcb.Messages.{CopyStream, CopyInfo, Outgoing, InOrder, Accepts, sent_one}
use webcb.Crypto.{Crypto}
use webcb.Client.Options.{CopyOption, CopyConfig, default_copy_config, copy_config}
use webcb.Client.Streams.{CopySender, copy_sender, send_copy_chunk, send_copy_checksum, send_info}
use webcb.Client.Counter.{WriteCounter, bytes_write_counter}
use webcb.Client.Layers.{Writers}
use webcb.Client.Copy.{
  Summary, Source, Keys, Copied, received, flushed, finish, started, info_sent, prepared,
  go_prepared, sized, opened, layered, copy,
}
use webcb.Client.Copy.Layered.{Encodes, Stacks, bottom-After}
use webcb.Client.Copy.Loop.{Supplies, layer_count, copy_data-lem}
use webcb.Client.Copy.Stacked.{encoded, prepared-Encodes}

abbrev pub copy_checksum : Bytes → List CopyStream
copy_checksum [] = []
copy_checksum (b ∷ p) = CopyStream.checksum (b ∷ p) ∷ []

-- The header that `sendInfo` makes.
abbrev pub header_of : {K : Type 0} → CopyConfig → Option (Keys K) → CopyInfo
header_of config none = record {
  ttl = config.ttl;
  compressed = config.compression;
  master_key_nonce = [];
  key_nonce = [];
  iv = [];
}
header_of config (some k) = record {
  ttl = config.ttl;
  compressed = config.compression;
  master_key_nonce = k.master_key_nonce;
  key_nonce = k.key_nonce;
  iv = k.iv;
}

module _ {S : Type 0} (client : Outgoing S CopyStream) (order : InOrder client)
    (accepts : Accepts client) where
  chunk_sent :
      (gc : CopySender S) (c : Bytes)
      → (gc' : CopySender S) × (send_copy_chunk client gc c ≡ (none, gc'))
        × (client.sent gc'.c ≡ client.sent gc.c ++ CopyStream.chunk c ∷ [])
  unfolding send_copy_chunk
  chunk_sent gc c = (
    record { c = (client.send gc.c (CopyStream.chunk c)).1; bytes_sent = gc.bytes_sent + length c },
    rw (sent_one client accepts gc.c (CopyStream.chunk c)),
    order.accepted gc.c _ (accepts gc.c _),
  )

  checksum_sent :
      (gc : CopySender S) (sum : Bytes)
      → (gc' : CopySender S) × (send_copy_checksum client gc sum ≡ (none, gc'))
        × (client.sent gc'.c ≡ client.sent gc.c ++ copy_checksum sum)
  unfolding send_copy_checksum
  checksum_sent gc [] = (gc, refl, sym (append-nil (client.sent gc.c)))
  checksum_sent gc (b ∷ p) = (
    record gc { c = (client.send gc.c (CopyStream.checksum (b ∷ p))).1 },
    rw (sent_one client accepts gc.c (CopyStream.checksum (b ∷ p))),
    order.accepted gc.c _ (accepts gc.c _),
  )

  abbrev log : CopySender S → List CopyStream
  log gc = client.sent gc.c

  pub copy_sender-Logs : Logs (copy_sender client) log CopyStream.chunk copy_checksum
  copy_sender-Logs = record { chunk = chunk_sent; checksum = checksum_sent }

-- The server takes the end of the stream, which sends no message.
pub record Closes {S : Type 0} (client : Outgoing S CopyStream)
    (close_and_recv : S → Option Error × S) : Type 0 where
  pub accepts : (s : S) → (close_and_recv s).0 ≡ none
  pub keeps : (s : S) → client.sent (close_and_recv s).1 ≡ client.sent s

-- `Copy` returned a summary. It sent the header, the bytes `enc` in chunks of `n` bytes and a shorter
-- one, and the checksum if there is one; the summary counts the `count` bytes that were read and
-- the bytes of `enc`.
pub record Sent {S : Type 0} (client : Outgoing S CopyStream) (n : ℕ) (header : CopyInfo)
    (enc sum : Bytes) (count : ℕ) (s : S) (r : Option (Result (Result Summary × S))) : Type 0 where
  pub summary : Summary
  pub after : S
  pub returned : r ≡ some (ok (ok summary, after))
  pub chunks : List Bytes
  pub sent :
      client.sent after
      ≡ client.sent s
        ++ (CopyStream.info header ∷ (messages CopyStream.chunk chunks ++ copy_checksum sum))
  pub whole : concat chunks ≡ enc
  pub full : List Bytes
  pub last : Bytes
  pub cut : chunks ≡ full ++ last ∷ []
  pub sizes : All (λ c. length c ≡ n) full × (length last < n)
  pub counts : (summary.bytes_read ≡ count) × (summary.byte_write ≡ length enc)
  pub checksum : summary.checksum ≡ sum

module _ {S I K Dst : Type 0} (client : Outgoing S CopyStream)
    (close_and_recv : S → Option Error × S) (source : Source I) (crypto : Crypto K)
    (writers : Writers (WriteCounter (Writer (CopySender S))) K Dst) (order : InOrder client)
    (accepts : Accepts client) (closes : Closes client close_and_recv)
    {seal : K → Bytes → Bytes → Bytes} {pack : Bytes → Bytes}
    (stacks : Stacks (copy_sender client) writers seal pack) where
  abbrev pub sum_of : CopyConfig → Bytes → Bytes
  sum_of config all =
      if config.checksum then crypto.sha256 (if config.checksum then [] ++ all else []) else []

  flushed-accepted :
      (config : CopyConfig) (c : Copied client close_and_recv source crypto writers) (sum : Bytes)
      (sent : ℕ) (w : Writer (CopySender S))
      → flushed client close_and_recv source crypto writers config c sum sent (none, w) ≡ (
        ok (record {
          bytes_read = c.bytes_read;
          byte_write = sent;
          checksum = sum;
          encrypted = config.encryption;
          compressed = config.compression;
        }),
        (close_and_recv w.s.c).1,
      )
  unfolding flushed received
  flushed-accepted config c sum sent w =
      ap
        (λ (e : Option Error).
          received client close_and_recv source crypto writers config c sum sent
            (e, (close_and_recv w.s.c).1))
        (closes.accepts w.s.c)

  started-Sent :
      (config : CopyConfig) (rounds n : ℕ) (i : I) (ps : List Bytes) (x : Option (Keys K))
      (y : Option (Dst → Dst)) (enc : Bytes → Bytes) (s s1 : S) (header : CopyInfo)
      → 0 < n
      → length ps < rounds
      → Supplies source n i ps
      → Encodes
          (copy_sender client)
          writers
          (layered client close_and_recv source crypto writers config x y)
          (layer_count config)
          enc
      → client.sent s1 ≡ client.sent s ++ CopyStream.info header ∷ []
      → Sent client n header
          (enc (concat ps))
          (sum_of config (concat ps))
          (length (concat ps))
          s
          (started client close_and_recv source crypto writers config rounds n i x y (none, s1))
  unfolding started finish flushed received bytes_write_counter new_writer
  started-Sent config rounds n i ps x y enc s s1 header p l sup encodes h =
      let cnt : WriteCounter (Writer (CopySender S)) =
        bytes_write_counter (new_writer (record { c = s1; bytes_sent = 0 }) (replicate n 0)) in
      let sum : Bytes = sum_of config (concat ps) in
      let (qs, eq, run) = encodes ps in
      let (cnt', wa, a, cn) = bottom-After logs n cnt qs (record {
        size = length-replicate n 0;
        room = omega (arith, length-replicate {A = ℕ} n 0);
        open_chunk = omega (arith, length-replicate {A = ℕ} n 0);
      }) in
      let (d, wb, cl) = run cnt cnt' wa in
      let (w', fl, lg) = flush-logged logs n cnt'.w sum a.ready in
      let c : Cut = feed n [] (concat qs) in
      record {
        summary = record {
          bytes_read = 0 + length (concat ps);
          byte_write = cnt'.sent;
          checksum = sum;
          encrypted = config.encryption;
          compressed = config.compression;
        };
        after = (close_and_recv w'.s.c).1;
        returned =
            rw
              (
                copy_data-lem client close_and_recv source crypto writers config rounds n i ps _ d
                    (writers.base cnt') 0 [] l sup wb cl,
                stacks.bottom_base cnt',
                fl,
              )
              (ap (λ z. some (ok z))
                (flushed-accepted config
                  (record {
                    dst = writers.base cnt';
                    bytes_read = 0 + length (concat ps);
                    hashed = if config.checksum then [] ++ concat ps else [];
                  })
                  sum cnt'.sent w'));
        chunks = c.full ++ c.rest ∷ [];
        sent =
            closes.keeps w'.s.c
            ∙ lg
            ∙ rw (a.sent, h, a.waits)
                (arrange CopyStream.chunk (client.sent s) (CopyStream.info header) c.full c.rest
                  (copy_checksum sum));
        whole = concat-snoc c.full c.rest ∙ concat-feed n [] (concat qs) ∙ eq;
        full = c.full;
        last = c.rest;
        cut = refl;
        sizes = feed-sizes n [] (concat qs) p;
        counts = (omega arith, cn ∙ omega arith ∙ ap (λ (z : Bytes). length z) eq);
        checksum = refl;
      }
    where
      logs : Logs (copy_sender client) (λ gc. client.sent gc.c) CopyStream.chunk copy_checksum
      logs = copy_sender-Logs client order accepts

  -- With a buffer of more than 0 bytes, a source that gives the pieces `ps` and then its end, layers
  -- that keep the promises of sio and zstd, keys and an encoder that could be made, and a server
  -- that takes every message, `Copy` returns a summary, in more rounds than pieces. It sent the
  -- header, with the nonces of the keys; then what the layers make of the bytes, in chunks of the
  -- size of the buffer and a shorter last one; and then the hash of the bytes, if a checksum is
  -- asked for. The summary counts the bytes read and the bytes sent.
  pub copy-Sent :
      (rounds n : ℕ) (opts : List CopyOption) (i : I) (ps : List Bytes) (x : Option (Keys K))
      (y : Option (Dst → Dst)) (s : S) (secret : Result Bytes)
      → (copy_config opts default_copy_config).chunk_size ≡ pos n
      → 0 < n
      → length ps < rounds
      → Supplies source n i ps
      → prepared client close_and_recv source crypto writers
          (copy_config opts default_copy_config)
          secret
        ≡ ok (x, y)
      → Sent client n
          (header_of (copy_config opts default_copy_config) x)
          (encoded seal pack x y (concat ps))
          (sum_of (copy_config opts default_copy_config) (concat ps))
          (length (concat ps))
          s
          (copy client close_and_recv source crypto writers rounds opts (ok s) i secret)
  unfolding copy opened sized go_prepared info_sent send_info
  copy-Sent rounds n opts i ps x y s secret e p l sup h =
      let config = copy_config opts default_copy_config in
      let header = header_of config x in
      rw (e, h, header_sent config s x)
        (started-Sent config rounds n i ps x y (encoded seal pack x y) s
          (client.send s (CopyStream.info header)).1 header p l sup
          (prepared-Encodes client close_and_recv source crypto writers stacks config secret x y h)
          (order.accepted s _ (accepts s _)))
    where
      header_sent :
          (config : CopyConfig) (s : S) (x : Option (Keys K))
          → info_sent client close_and_recv source crypto writers config s x
            ≡ (none, (client.send s (CopyStream.info (header_of config x))).1)
      header_sent config s none = sent_one client accepts s _
      header_sent config s (some k) = sent_one client accepts s _
