-- ===== src/Transfer.antt =====
-- `Copy` of client/client.go, `Copy` and `Paste` of server/clipboard.go, and `Paste` of
-- client/client.go, one after the other.
pub mod Arrivals
pub mod Cleared
use webcb.Base.{
  ℕ, suc, ◌+◌, ◌*◌, ◌<◌, ◌≤◌, ◌≡◌, refl, ◌∙◌, ap, true, false, List, [], ◌∷◌, ◌++◌, arith, Option,
  none, some, Result, ok, err, Error, eof, Bytes, length, length-append, concat, ltb, String, All,
  Bool-cases, inl, inr,
}
use webcb.Base.Int.{ℤ, pos, above}
use webcb.Stream.Reader.{Reader}
use webcb.Stream.Writer.{Writer}
use webcb.Stream.Logged.{messages, concat-snoc}
use webcb.Storage.Badger.{Badger, Healthy}
use webcb.Storage.Batch.{Versions, BadgerDb}
use webcb.Storage.Batch.Laws.{RoundTrips, Locks}
use webcb.Storage.Write.{Env}
use webcb.Storage.Read.Laws.{Monotonic}
use webcb.Messages.{CopyStream, PastStream, Outgoing, InOrder, Accepts, Incoming}
use webcb.Crypto.{Crypto}
use webcb.Server.Config.{Config}
use webcb.Server.Streams.{next}
use webcb.Server.Handlers.{Outcome, rate_of, exceeds, ttl_of, meta_of}
use webcb.Server.Handlers
use webcb.Server.Handlers.Chunks.{arrivals}
use webcb.Server.Handlers.Pasting.{checksum_messages}
use webcb.Server.Handlers.RoundTrip.{info_of, Fresh, copy-paste}
use webcb.Client.Options.{
  CopyOption, CopyConfig, PasteOption, default_copy_config, copy_config, default_paste_config,
  paste_config,
}
use webcb.Client.Streams.{CopySender, copy_sender, PasteReceiver, paste_receiver}
use webcb.Client.Streams.Laws.{delivered}
use webcb.Client.Counter.{WriteCounter}
use webcb.Client.Layers.{Writers, Readers}
use webcb.Client.Copy.{Source, Keys, Summary, prepared}
use webcb.Client.Copy
use webcb.Client.Copy.Layered.{Stacks}
use webcb.Client.Copy.Loop.{Supplies}
use webcb.Client.Copy.Stacked.{encoded, given, prepared-keys}
use webcb.Client.Copy.Laws.{copy_checksum, header_of, Closes, sum_of, copy-Sent}
use webcb.Client.Paste.{Sink, PasteCall, call_of, sha256_size}
use webcb.Client.Paste
use webcb.Client.Paste.Laws.{Takes, paste-Received}
use webcb.Client.Paste.Plain.{Bare, base-Readable}
use webcb.Client.Paste.Opened.{Opens, Announces, Draws, keys-open}
use webcb.Transfer.Arrivals.{
  copied_arrivals, checksum_ends, header_Announces, rate_same, only_later, bounded,
}

module _ {S I K Dst : Type 0} (client : Outgoing S CopyStream)
    (close_and_recv : S → Option Error × S) (source : Source I) (crypto : Crypto K)
    (writers : Writers (WriteCounter (Writer (CopySender S))) K Dst) (order : InOrder client)
    (accepts : Accepts client) (closes : Closes client close_and_recv)
    {seal : K → Bytes → Bytes → Bytes} {pack : Bytes → Bytes}
    (stacks : Stacks (copy_sender client) writers seal pack) {Src O : Type 0} (draws : Draws crypto)
    (hash_size : (p : Bytes) → length (crypto.sha256 p) ≡ sha256_size)
    (readers : Readers (Reader PasteReceiver) K Src) (sink : Sink O) {held : O → Bytes}
    (takes : Takes sink held) (opens : Opens readers seal pack) where
  abbrev sum_for : CopyConfig → Bytes → Bytes
  sum_for config all =
      sum_of client close_and_recv source crypto writers order accepts closes stacks config all

  -- Without an error, `all` was put out, in some number of rounds.
  pub record Restored (opts : List PasteOption) (server : PasteCall → Result (Incoming PastStream))
      (secret : Result Bytes) (out : O) (all : Bytes) : Type 0 where
    pub rounds : ℕ
    pub out' : O
    pub returned : Paste.paste crypto readers sink rounds opts server secret out ≡ some (none, out')
    pub output : held out' ≡ held out ++ all

  checksum_accepts :
      (config : CopyConfig) (all : Bytes)
      → ltb 0 (length (sum_for config all)) ≡ true
      → (length (sum_for config all) ≡ sha256_size) × (sum_for config all ≡ crypto.sha256 all)
  checksum_accepts config all h = elim (Bool-cases config.checksum) [
    | inl e ↦ rw e (hash_size all, refl)
    | inr e ↦ absurd (ground (arith, (rw e at h)))
  ]

  restored :
      (rounds m : ℕ) (bare : Bare readers paste_receiver rounds) (config : CopyConfig)
      (x : Option (Keys K)) (y : Option (Dst → Dst)) (opts : List PasteOption) (cs : List Bytes)
      (secret : Result Bytes) (out : O) (all : Bytes)
      → (paste_config opts default_paste_config).chunk_size ≡ pos m
      → 0 < m
      → length cs < rounds
      → concat cs ≡ encoded seal pack x y all
      → prepared client close_and_recv source crypto writers config secret ≡ ok (x, y)
      → (server : PasteCall → Result (Incoming PastStream))
      → server (call_of (pos m))
        ≡ ok (
            delivered (
              PastStream.info (info_of (meta_of (header_of config x)) (sum_for config all))
              ∷ (messages PastStream.chunk cs ++ checksum_messages (sum_for config all))))
      → Restored opts server secret out all
  restored rounds m bare config x y opts cs secret out all e p l whole h server f =
      let sum : Bytes = sum_for config all in
      let info = info_of (meta_of (header_of config x)) sum in
      let (g, c) =
        prepared-keys client close_and_recv source crypto writers stacks config secret x y h in
      let (src, made, readable) =
        keys-open crypto draws readers sink info opens secret x y _ all sum
          (header_Announces config x y sum c) g
          (base-Readable rounds bare cs (encoded seal pack x y all) sum l whole) in
      let (k, gives) = readable m p in
      let r =
        paste-Received crypto readers sink takes (suc k) m k opts server secret out info _ src sum
          all e f made gives (omega arith) in
      record {
        rounds = suc k;
        out' = r.out';
        returned =
            r.returned ∙ ap (λ z. some (z, r.out')) (r.accepted.1 (checksum_accepts config all));
        output = r.output;
      }

  module _ {S' Db Batch Txn : Type 0} (srv : Outgoing S' PastStream) (order' : InOrder srv)
      (accepts' : Accepts srv) {badger : Badger Db Batch Txn} (h : Healthy badger) (env : Env)
      (rt : RoundTrips env.versions_codec) (rt' : RoundTrips env.clipboard_codec)
      (u : Monotonic env.ulid) (text_of : Error → String) where
    -- A copy, the handling of it, and the handling of a paste went well, and what the server sent
    -- to the second client gives the bytes back.
    pub record Transferred (rounds rounds' v m : ℕ) (opts : List CopyOption)
        (opts' : List PasteOption) (i : I) (s : S) (secret : Result Bytes) (b : BadgerDb Db)
        (c : Config) (s' : S') (out : O) (all : Bytes) : Type 0 where
      pub summary : Summary
      pub after : S
      pub copied :
          Copy.copy client close_and_recv source crypto writers rounds opts (ok s) i secret
          ≡ some (ok (ok summary, after))
      pub stored : BadgerDb Db
      pub served :
          Handlers.copy badger env rounds' none (ok v) (delivered (client.sent after)) b
          ≡ some (Outcome.returns none, stored)
      pub after' : S'
      pub answered :
          Handlers.paste srv text_of badger env c (pos m) s' stored.db
          ≡ some (Outcome.returns none, after')
      pub restores : Restored opts' (λ call. ok (delivered (srv.sent after'))) secret out all

    -- The bytes of a source are copied with any options, the handler stores what arrives, and a
    -- client with the same secret pastes them, at the end of which its output has got exactly these
    -- bytes, and it reports no error. The conditions: streams that take every message and that
    -- have sent none before; layers that keep the promises of sio and zstd, keys and an encoder that
    -- could be made; hashes of 32 bytes and an output that takes every byte; a database, encodings and ULIDs that keep
    -- the laws stated for them; buffers of more than 0 bytes, and a rate within the limit; more
    -- rounds than pieces, or than bytes and chunks; a time to live above a second; a readable list
    -- of locked versions; and no chunk of the new version in the database.
    pub transfer :
        (rounds rounds' v n m : ℕ) (opts : List CopyOption) (opts' : List PasteOption) (i : I)
        (ps : List Bytes) (x : Option (Keys K)) (y : Option (Dst → Dst)) (s : S)
        (secret : Result Bytes) (b : BadgerDb Db) (locks : Versions) (c : Config) (s' : S')
        (out : O)
        → (copy_config opts default_copy_config).chunk_size ≡ pos n
        → 0 < n
        → length ps < rounds
        → Supplies source n i ps
        → prepared client close_and_recv source crypto writers
            (copy_config opts default_copy_config)
            secret
          ≡ ok (x, y)
        → client.sent s ≡ []
        → srv.sent s' ≡ []
        → 1 + 2 * length (encoded seal pack x y (concat ps)) < rounds'
        → Bare readers paste_receiver rounds'
        → 0 < b.chunk_size
        → above 999_999_999 (ttl_of (header_of (copy_config opts default_copy_config) x)) ≡ true
        → Locks h rt b.db locks
        → Fresh srv order' accepts' h env rt rt' u text_of b.db v
        → (paste_config opts' default_paste_config).chunk_size ≡ pos m
        → exceeds (pos m) c.grpc_max_recv_size ≡ false
        → 0 < m
        → Transferred rounds rounds' v m opts opts' i s secret b c s' out (concat ps)
    transfer rounds rounds' v n m opts opts' i ps x y s secret b locks c s' out e p l sup pr z z'
          fuel bare size life q fresh e' low p' =
        let config = copy_config opts default_copy_config in
        let all = concat ps in
        let enc = encoded seal pack x y all in
        let sum : Bytes = sum_for config all in
        let header = header_of config x in
        let c1 =
          copy-Sent client close_and_recv source crypto writers order accepts closes stacks rounds n
            opts i ps x y s secret e p l sup pr in
        let arrived : delivered (client.sent c1.after)
            ≡ ok (CopyStream.info header) ∷ arrivals c1.chunks (delivered (copy_checksum sum)) =
          ap delivered (only_later _ _ _ c1.sent z)
          ∙ ap (λ t. ok (CopyStream.info header) ∷ t) (copied_arrivals c1.chunks sum) in
        let few = bounded n c1.chunks c1.full c1.last enc p c1.cut c1.sizes.0 c1.whole in
        let (stored, served, answer) =
          copy-paste srv order' accepts' h env rt rt' u text_of rounds' v m none header c1.chunks
            (delivered (copy_checksum sum)) [] sum b locks c (pos m) s' (checksum_ends sum)
            (omega (arith, few, fuel, ap (λ (z : Bytes). length z) c1.whole)) size life q fresh
            (rw (rate_same m p') low) (rate_same m p') p' in
        let few' =
          bounded m answer.chunks answer.full answer.last enc p' answer.cut answer.sizes.0
            (answer.whole ∙ c1.whole) in
        record {
          summary = c1.summary;
          after = c1.after;
          copied = c1.returned;
          stored = stored;
          served = ap (λ t. Handlers.copy badger env rounds' none (ok v) t b) arrived ∙ served;
          after' = answer.after;
          answered = answer.returned;
          restores =
              restored rounds' m bare config x y opts' answer.chunks secret out all e' p'
                (omega (arith, few', fuel)) (answer.whole ∙ c1.whole) pr
                (λ call. ok (delivered (srv.sent answer.after)))
                (ap (λ l. ok (delivered l)) (only_later _ _ _ answer.sent z'));
        }
