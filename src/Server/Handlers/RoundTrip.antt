-- ===== src/Server/Handlers/RoundTrip.antt =====
-- `Paste` of server/clipboard.go after a `Copy`: the bytes come back.
use webcb.Base.{
  ℕ, ◌+◌, ◌<◌, ◌≡◌, refl, sym, ◌∙◌, ap, ap₂, subst, true, false, List, [], ◌∷◌, ◌++◌, arith, Option,
  none, some, Result, ok, err, Error, eof, Bytes, length, concat, replicate, ltb, length-replicate,
  String, All, has_prefix,
}
use webcb.Base.Int.{ℤ, pos, above}
use webcb.Stream.Writer.{Writer, new_writer, pending}
use webcb.Stream.Writer.Frames.{Cut, feed, concat-feed, feed-sizes}
use webcb.Stream.Writer.Laws.{Ready}
use webcb.Storage.Badger.{Badger, missing, Item, Healthy}
use webcb.Storage.Keys.{index_of}
use webcb.Storage.Batch.{Versions, BadgerDb}
use webcb.Storage.Batch.Laws.{RoundTrips, Locks}
use webcb.Storage.Scan.{Scanned-unique}
use webcb.Storage.Write.{Env, Meta, Clipboard, StreamReader}
use webcb.Storage.Write.Laws.{chunk_entries, pieces, concat-pieces}
use webcb.Storage.Write.Stored.{Stored}
use webcb.Storage.Read.{
  StreamWriter, read_batch, send_latest, send_decoded, send_clipboard, after_header, send_items,
}
use webcb.Storage.Read.Laws.{Monotonic, items_of, chunks-Scanned}
use webcb.Messages.{PastStream, PastInfo, Outgoing, InOrder, CopyInfo, CopyStream, Incoming}
use webcb.Server.Config.{Config}
use webcb.Server.Streams.{send_header, next}
use webcb.Server.Handlers.{
  Outcome, stream_writer, paste, paste_at, pasted, rate_of, exceeds, copy, ttl_of, meta_of,
}
use webcb.Server.Handlers.Chunks.{arrivals}
use webcb.Server.Handlers.Copying.{copy-Kept}
use webcb.Server.Handlers.Pasting.{chunk_messages, checksum_messages, sender-Logs, chunks-After}
use webcb.Stream.Logged.{arrange, concat-snoc, flush-logged}
use webcb.Messages.{Accepts}

-- The header that `Paste` sends.
abbrev pub info_of : Meta → Bytes → PastInfo
info_of m sum = record {
  checksum = ltb 0 (length sum);
  compressed = m.compressed;
  master_key_nonce = m.master_key_nonce;
  key_nonce = m.key_nonce;
  iv = m.iv;
}

module _ {S : Type 0} (srv : Outgoing S PastStream) (o : InOrder srv) (accepts : Accepts srv) where
  -- `Paste` returned without an error, after it sent the header, the bytes `all` in chunks of at
  -- most `n` bytes, and the checksum if there is one.
  pub record Pasted (n : ℕ) (m : Meta) (sum all : Bytes) (s : S) (out : Option (Outcome × S))
      : Type 0 where
    pub after : S
    pub returned : out ≡ some (Outcome.returns none, after)
    pub chunks : List Bytes
    pub sent :
        srv.sent after
        ≡ srv.sent s
          ++ (PastStream.info (info_of m sum) ∷ (chunk_messages chunks ++ checksum_messages sum))
    pub whole : concat chunks ≡ all
    pub full : List Bytes
    pub last : Bytes
    pub cut : chunks ≡ full ++ last ∷ []
    pub sizes : All (λ c. length c ≡ n) full × (length last < n)

  module _ (text_of : Error → String) where
    abbrev sw : StreamWriter (Writer S)
    sw = stream_writer srv text_of

    -- from the header on
    abbrev clipboard : ℕ → Bytes → Meta → Bytes → ℕ → Clipboard
    clipboard v text m sum size = record {
      sequence = v;
      expire_at = text;
      compressed = m.compressed;
      master_key_nonce = m.master_key_nonce;
      key_nonce = m.key_nonce;
      iv = m.iv;
      checksum = sum;
      size = size;
    }

    items_Pasted :
        (ulid : ℕ → Bytes) (n v i : ℕ) (cs : List Bytes) (m : Meta) (sum : Bytes) (s : S)
        (w : Writer S)
        → Ready n w
        → pending w ≡ []
        → srv.sent w.s ≡ srv.sent s ++ PastStream.info (info_of m sum) ∷ []
        → Pasted n m sum
            (concat cs)
            s
            (pasted srv text_of (send_items sw sum (items_of (chunk_entries ulid v i cs)) 0 w))
    unfolding send_items pasted
    items_Pasted ulid n v i cs m sum s w r z q =
        let (w1, e, a) = chunks-After srv o accepts text_of sum ulid n v i 0 w cs r in
        let (w2, f, b) = flush-logged (sender-Logs srv o accepts) n w1 sum a.ready in
        let c : Cut = feed n [] (concat cs) in
        record {
          after = w2.s;
          returned = ap (pasted srv text_of) e ∙ rw f;
          chunks = c.full ++ c.rest ∷ [];
          sent =
              b
              ∙ rw (a.sent, q, a.waits, z)
                  (arrange PastStream.chunk (srv.sent s) (PastStream.info (info_of m sum)) c.full
                    c.rest (checksum_messages sum));
          whole = concat-snoc c.full c.rest ∙ concat-feed n [] (concat cs);
          full = c.full;
          last = c.rest;
          cut = refl;
          sizes = feed-sizes n [] (concat cs) (omega (arith, r.open_chunk, r.room));
        }

    clipboard_step :
        (scan : Bytes → List Item) (cb : Clipboard) (w w' : Writer S) (items : List Item)
        → sw.header w cb.compressed
            (ltb 0 (length cb.checksum))
            cb.master_key_nonce
            cb.key_nonce
            cb.iv
          ≡ (none, w')
        → scan (index_of cb.sequence) ≡ items
        → send_clipboard sw scan cb w ≡ send_items sw cb.checksum items 0 w'
    unfolding send_clipboard after_header
    clipboard_step scan cb w w' items e f = ap₂ (λ h i. after_header sw h cb.checksum i) e f

    clipboard_Pasted :
        (ulid : ℕ → Bytes) (n v i size : ℕ) (text : Bytes) (cs : List Bytes) (m : Meta)
        (sum : Bytes) (s : S) (scan : Bytes → List Item)
        → 0 < n
        → scan (index_of v) ≡ items_of (chunk_entries ulid v i cs)
        → Pasted n m sum (concat cs) s (
            pasted srv text_of
              (send_clipboard sw scan (clipboard v text m sum size) (new_writer s (replicate n 0))))
    unfolding send_clipboard new_writer send_header
    clipboard_Pasted ulid n v i size text cs m sum s scan p e =
        let header = PastStream.info (info_of m sum) in
        let w0 : Writer S = record (new_writer s (replicate n 0)) { s = (srv.send s header).1 } in
        subst (λ z. Pasted n m sum (concat cs) s (pasted srv text_of z))
          (sym (
            clipboard_step scan (clipboard v text m sum size) (new_writer s (replicate n 0)) w0
              (items_of (chunk_entries ulid v i cs))
              (ap (λ (x : Option Error). (x, w0)) (accepts s header)) e))
          (items_Pasted ulid n v i cs m sum s w0
            (record {
              size = length-replicate n 0;
              room = omega (arith, length-replicate {A = ℕ} n 0);
              open_chunk = omega (arith, length-replicate {A = ℕ} n 0);
            })
            refl (o.accepted s header (accepts s header)))

  module _ {Db Batch Txn : Type 0} {badger : Badger Db Batch Txn} (h : Healthy badger) (env : Env)
      (rt : RoundTrips env.versions_codec) (rt' : RoundTrips env.clipboard_codec)
      (u : Monotonic env.ulid) (text_of : Error → String) where
    -- no chunk of the version `v` is there
    abbrev pub Fresh : Db → ℕ → Type 0
    Fresh d v = (k : Bytes) → has_prefix k (index_of v) ≡ true → badger.get d k ≡ missing

    stored-Pasted :
        {R : Type 0} (stream : StreamReader R) (v n k : ℕ) (m : Meta) (sum all : Bytes) (s : S)
        (b : BadgerDb Db) (out : Option (Result ℕ × BadgerDb Db))
        (st : Stored h env rt rt' stream v m sum k all b out)
        → 0 < n
        → Fresh b.db v
        → Pasted n m sum all s (
            pasted srv text_of (
              read_batch
                (stream_writer srv text_of)
                badger
                env.clipboard_codec
                st.after.db
                (new_writer s (replicate n 0))))
    unfolding read_batch send_latest send_decoded
    stored-Pasted stream v n k m sum all s b out st p fresh =
        let cs = pieces b.chunk_size k all in
        rw (st.at_latest, st.decoded)
          (subst
            (λ x. Pasted n m sum x s (
              pasted srv text_of (
                send_clipboard (sw text_of) (badger.scan st.after.db)
                  (clipboard text_of v (env.expiry m.ttl) m sum (length all))
                  (new_writer s (replicate n 0)))))
            (concat-pieces b.chunk_size k all)
            (clipboard_Pasted text_of env.ulid n v b.ulids (length all) (env.expiry m.ttl) cs m sum
              s (badger.scan st.after.db) p scanned))
      where
        scanned :
            badger.scan st.after.db (index_of v)
            ≡ items_of (chunk_entries env.ulid v b.ulids (pieces b.chunk_size k all))
        scanned = Scanned-unique _ _ (h.scan_lem st.after.db (index_of v)) (
            chunks-Scanned env.ulid u v b.ulids (pieces b.chunk_size k all) (badger.get b.db)
              (badger.get st.after.db) fresh st.chunks)

    -- `Copy` of an info header, any chunks, and then the end of the stream (as a checksum or
    -- without one), followed by a `Paste`: the copy ends with what closing the stream returns, and
    -- the paste sends the header, exactly the copied bytes in their order, in full buffers and a
    -- shorter last one, and the checksum if there is one. The conditions: a database, encodings
    -- and ULIDs that keep the laws stated for them; more rounds than chunks and bytes; a chunk
    -- size that is not 0; a time to live above a second; a readable list of locked versions; no
    -- chunk of the new version in the database; a rate that is positive and within the limit; and
    -- a client that takes every message.
    pub copy-paste :
        (rounds v n : ℕ) (closed : Option Error) (fi : CopyInfo) (cs : List Bytes)
        (t t' : Incoming CopyStream) (sum : Bytes) (b : BadgerDb Db) (locks : Versions) (c : Config)
        (rate : ℤ) (s : S)
        → next (record { srv = t; checksum = [] }) ≡ (err eof, record { srv = t'; checksum = sum })
        → length cs + length (concat cs) < rounds
        → 0 < b.chunk_size
        → above 999_999_999 (ttl_of fi) ≡ true
        → Locks h rt b.db locks
        → Fresh b.db v
        → exceeds (rate_of rate) c.grpc_max_recv_size ≡ false
        → rate_of rate ≡ pos n
        → 0 < n
        → (b' : BadgerDb Db) × (copy badger env rounds closed
              (ok v)
              (ok (CopyStream.info fi) ∷ arrivals cs t)
              b
            ≡ some (Outcome.returns closed, b'))
          × Pasted n (meta_of fi) sum (concat cs) s (paste srv text_of badger env c rate s b'.db)
    unfolding paste paste_at
    copy-paste rounds v n closed fi cs t t' sum b locks c rate s ends l p life q fresh low e pn =
        let kept = copy-Kept h env rt rt' rounds v closed fi cs t t' sum b locks ends l p life q in
        (
          kept.stored.after,
          kept.returned,
          rw (low, e)
              (stored-Pasted _ v n kept.k (meta_of fi) sum (concat cs) s b kept.batch kept.stored pn
                fresh),
        )
