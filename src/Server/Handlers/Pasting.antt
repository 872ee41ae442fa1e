-- ===== src/Server/Handlers/Pasting.antt =====
-- What `Paste` of server/clipboard.go sends when the database holds a version.
use webcb.Base.{
  ℕ, suc, ◌+◌, ◌≡◌, refl, sym, ◌∙◌, ap, true, List, [], ◌∷◌, ◌++◌, append-nil, arith, Option, none,
  some, Result, ok, Error, Bytes, length, concat, length-append, has_suffix, String,
}
use webcb.Stream.Writer.{Writer, write}
use webcb.Stream.Logged.{Logs, messages, After, After-nil, After-append, write-After}
use webcb.Stream.Writer.Laws.{Ready}
use webcb.Storage.Keys.{chunk_suffix, chunk_key, chunk_key-has_suffix}
use webcb.Storage.Write.Laws.{chunk_entries}
use webcb.Storage.Read.{StreamWriter, send_item, send_items, go_on}
use webcb.Storage.Read.Laws.{items_of}
use webcb.Messages.{PastStream, Outgoing, InOrder, Accepts, sent_one}
use webcb.Server.Streams.{sender, send_chunk, send_checksum}
use webcb.Server.Handlers.{stream_writer}

abbrev pub chunk_messages : List Bytes → List PastStream
chunk_messages = messages PastStream.chunk

abbrev pub checksum_messages : Bytes → List PastStream
checksum_messages [] = []
checksum_messages (b ∷ p) = PastStream.checksum (b ∷ p) ∷ []

module _ {S : Type 0} (srv : Outgoing S PastStream) (o : InOrder srv) (accepts : Accepts srv) where
  chunk_sent :
      (s : S) (c : Bytes)
      → (s' : S) × (send_chunk srv s c ≡ (none, s'))
        × (srv.sent s' ≡ srv.sent s ++ PastStream.chunk c ∷ [])
  unfolding send_chunk
  chunk_sent s c = (_, sent_one srv accepts s (PastStream.chunk c), o.accepted s _ (accepts s _))

  checksum_sent :
      (s : S) (sum : Bytes)
      → (s' : S) × (send_checksum srv s sum ≡ (none, s'))
        × (srv.sent s' ≡ srv.sent s ++ checksum_messages sum)
  unfolding send_checksum
  checksum_sent s [] = (s, refl, sym (append-nil (srv.sent s)))
  checksum_sent s (b ∷ p) =
      (_, sent_one srv accepts s (PastStream.checksum (b ∷ p)), o.accepted s _ (accepts s _))

  pub sender-Logs : Logs (sender srv) srv.sent PastStream.chunk checksum_messages
  sender-Logs = record { chunk = chunk_sent; checksum = checksum_sent }

  module _ (text_of : Error → String) (checksum : Bytes) where
    abbrev sw : StreamWriter (Writer S)
    sw = stream_writer srv text_of

    item_step :
        (k v : Bytes) (sum n : ℕ) (w w' : Writer S)
        (next : ℕ → Writer S → Option (Result ℕ × Writer S))
        → has_suffix k chunk_suffix ≡ true
        → write (sender srv) w v ≡ some ((n, none), w')
        → send_item sw (k, ok v) sum w next ≡ next (sum + n) w'
    unfolding send_item go_on
    item_step k v sum n w w' next h e = rw (h, e)

    -- The items of a version's chunks are written one after the other.
    pub chunks-After :
        (ulid : ℕ → Bytes) (n v i sum : ℕ) (w : Writer S) (cs : List Bytes)
        → Ready n w
        → (w' : Writer S) × (send_items sw checksum (items_of (chunk_entries ulid v i cs)) sum w
            ≡ send_items sw checksum [] (sum + length (concat cs)) w')
          × After sender-Logs n w (concat cs) w'
    unfolding send_items
    chunks-After ulid n v i sum w [] r =
        (w, ap (λ m. send_items sw checksum [] m w) (omega arith), After-nil sender-Logs n w r)
    chunks-After ulid n v i sum w (c ∷ cs) r =
        let (w1, e, a) = write-After sender-Logs n w c r in
        let (w2, f, b) = chunks-After ulid n v (suc i) (sum + length c) w1 cs a.ready in
        (
          w2,
          item_step (chunk_key v (ulid i)) c sum (length c) w w1 _ (chunk_key-has_suffix v (ulid i))
                e
              ∙ f
              ∙ ap (λ m. send_items sw checksum [] m w2)
                  (omega (arith, length-append c (concat cs))),
          After-append sender-Logs n w w1 w2 c (concat cs) a b,
        )
