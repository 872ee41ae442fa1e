-- ===== src/Client/Streams/Laws.antt =====
-- What the client's receiver makes of the messages that the server sends.
use webcb.Server.Handlers.Chunks.{Fits, fit, Delivers-Yields}
use webcb.Base.{
  ℕ, ◌<◌, refl, sym, arith, subst, List, [], ◌∷◌, ◌++◌, ok, eof, Option, Bytes, length, concat,
}
use webcb.Stream.Reader.{Reader, new_reader, read}
use webcb.Stream.Reader.Copying.{Delivers}
use webcb.Messages.{PastStream, Incoming, Outgoing, InOrder}
use webcb.Storage.Write.{Meta, StreamReader}
use webcb.Storage.Write.Laws.{Yields}
use webcb.Server.Handlers.{Outcome}
use webcb.Client.Streams.{PasteReceiver, paste_receiver, next_past}
use webcb.Server.Handlers.Pasting.{chunk_messages}
use webcb.Messages.{Accepts}
use webcb.Server.Handlers.RoundTrip.{Pasted}
use webcb.Server.Handlers.Pasting.{checksum_messages}

-- messages that arrive as they were sent
abbrev pub delivered : {M : Type 0} → List M → Incoming M
delivered [] = []
delivered (m ∷ ms) = ok m ∷ delivered ms

-- The messages of a paste after its header are chunks and a checksum, if there is one. To the
-- client's receiver they deliver the bytes of the chunks and then the end, with that checksum.
pub sent-Delivers :
    (cs : List Bytes) (sum : Bytes)
    → Delivers paste_receiver
        (length cs)
        (record { c = delivered (chunk_messages cs ++ checksum_messages sum); checksum = [] })
        (concat cs)
        eof
        (record { c = []; checksum = sum })
unfolding next_past
sent-Delivers [] [] = (refl, refl)
sent-Delivers [] (b ∷ p) = (refl, refl)
sent-Delivers (c ∷ cs) sum = (
  c,
  record { c = delivered (chunk_messages cs ++ checksum_messages sum); checksum = [] },
  concat cs,
  refl,
  refl,
  sent-Delivers cs sum,
)

-- the reader of the messages of a paste after its header, as a stream of bytes
abbrev pub pasted_stream : ℕ → StreamReader (Reader PasteReceiver)
pasted_stream rounds = record {
  read = read paste_receiver rounds;
  checksum = λ r. paste_receiver.checksum r.r;
}

-- A client that reads what `Paste` sent after its header, with any buffers of `b` bytes, one read after
-- the other, gets exactly the bytes `all`: the number of full buffers that they fill, then the others
-- with the end of the stream, and after that it has the checksum. The conditions: there are more
-- rounds than messages, and a buffer is not empty.
pub received-Yields :
    {S : Type 0} (srv : Outgoing S PastStream) (o : InOrder srv) (accepts : Accepts srv) (n : ℕ)
    (m : Meta) (sum all : Bytes) (s : S) (out : Option (Outcome × S))
    (p : Pasted srv o accepts n m sum all s out) (rounds b : ℕ)
    → length p.chunks < rounds
    → 0 < b
    → (k : ℕ) × Fits b k (length all)
      × Yields
          (pasted_stream rounds)
          b
          k
          (new_reader (record {
            c = delivered (chunk_messages p.chunks ++ checksum_messages sum);
            checksum = [];
          }))
          all
          eof
          sum
unfolding new_reader
received-Yields srv o accepts n m sum all s out p rounds b l h =
    let (k, _, f) = fit b (length all) (length all) h (omega arith) in
    (
      k,
      f,
      subst
          (λ (x : Bytes).
            Yields (pasted_stream rounds) b k
              (new_reader (record {
                c = delivered (chunk_messages p.chunks ++ checksum_messages sum);
                checksum = [];
              }))
              x eof sum)
          p.whole
          (Delivers-Yields paste_receiver rounds b k (length p.chunks)
            (new_reader (record {
              c = delivered (chunk_messages p.chunks ++ checksum_messages sum);
              checksum = [];
            }))
            (concat p.chunks) eof (record { c = []; checksum = sum }) l h refl
            (sent-Delivers p.chunks sum)
            (subst (λ (x : Bytes). Fits b k (length x)) (sym p.whole) f)),
    )
