-- ===== src/Tests/Examples.antt =====
-- Runs of the server over a database in memory.
use webcb.Base.{
  ℕ, ◌≡◌, refl, inl, true, false, List, [], ◌∷◌, ◌++◌, arith, none, some, ok, err, Error, eof,
  key_not_found, wrapped, Bytes, concat, String,
}
use webcb.Base.Int.{pos, above}
use webcb.Stream.Sending.{send_all}
use webcb.Stream.Reader.{Reader, new_reader, read}
use webcb.Stream.Reader.Copying.{unread, Delivers}
use webcb.Stream.Reader.Laws.{Reads, read-Reads}
use webcb.Stream.Writer.{Writer, write}
use webcb.Stream.Writer.Frames.{feed}
use webcb.Stream.Writer.Laws.{Ready, Wrote, write-Wrote}
use webcb.Stream.Writer.Sequence.{write_each, Fed, write_each-Fed}
use webcb.Storage.Batch.{BadgerDb}
use webcb.Storage.Batch.Laws.{Locks}
use webcb.Storage.Write.{write_batch}
use webcb.Storage.Write.Laws.{Yields}
use webcb.Storage.Write.Stored.{Stored, write_batch-Stored}
use webcb.Messages.{CopyInfo, CopyStream, PastStream, ErrorType, Incoming, Outgoing, InOrder}
use webcb.Server.Config.{Config}
use webcb.Server.Streams.{GrpcReceiver, receiver, sender, next}
use webcb.Server.Handlers.{Outcome, copy, paste, meta_of, stream_reader, rate_of, exceeds, ttl_of}
use webcb.Server.Handlers.Chunks.{Fits, arrivals, arrivals-Delivers, Delivers-Yields}
use webcb.Server.Handlers.Copying.{Kept, copy-Kept}
use webcb.Messages.{Accepts}
use webcb.Server.Handlers.RoundTrip.{Pasted, copy-paste, info_of}
use webcb.Server.Handlers.Refusing.{Refused, Reason, paste-Refused}
use webcb.Client.Streams.Laws.{delivered, pasted_stream, received-Yields}
use webcb.Server.Handlers.Pasting.{chunk_messages}
use webcb.Server.Handlers.Pasting.{checksum_messages}
use webcb.Tests.Store.{Store, empty, memory, memory-Healthy}
use webcb.Tests.Codecs.{versions-RoundTrips, clipboard-RoundTrips, ulid-Monotonic, env}

-- A stream that takes everything; the messages are its state.
abbrev pub srv : Outgoing (List PastStream) PastStream
srv = record { send = λ s m. (none, s ++ m ∷ []); sent = λ s. s }

pub srv-InOrder : InOrder srv
srv-InOrder = record { accepted = λ s m h. refl; refused = λ s m x h. absurd (ground arith) }

pub srv-Accepts : Accepts srv
srv-Accepts s m = refl

abbrev pub text_of : Error → String
text_of e = "no"

-- a log file that a few entries fill, and chunks of four bytes
abbrev pub small_db : BadgerDb Store
small_db = record { db = empty; value_log_file_size = 100; chunk_size = 4; ulids = 0 }

pub small_db-Locks : Locks memory-Healthy versions-RoundTrips small_db.db []
small_db-Locks = inl (refl, refl)

abbrev pub header : CopyInfo
header = record {
  ttl = pos 0;
  compressed = true;
  master_key_nonce = 9 ∷ [];
  key_nonce = [];
  iv = 8 ∷ [];
}

abbrev pub sent_chunks : List Bytes
sent_chunks = (1 ∷ 2 ∷ 3 ∷ []) ∷ (4 ∷ 5 ∷ 6 ∷ 7 ∷ 8 ∷ 9 ∷ []) ∷ []

abbrev pub sent_checksum : Bytes
sent_checksum = 7 ∷ 7 ∷ []

abbrev ending : Incoming CopyStream
ending = ok (CopyStream.checksum sent_checksum) ∷ []

abbrev pub config : Config
config = record { grpc_max_recv_size = pos 50; ca = []; cert = []; key = []; dev = true }

ending-next :
    next (record { srv = ending; checksum = [] })
    ≡ (err eof, record { srv = []; checksum = sent_checksum })
unfolding next
ending-next = refl

header-ttl : above 999_999_999 (ttl_of header) ≡ true
unfolding ttl_of
header-ttl = refl

pub within_limit : exceeds (rate_of (pos 5)) config.grpc_max_recv_size ≡ false
unfolding exceeds rate_of
within_limit = refl

pub rate_five : rate_of (pos 5) ≡ pos 5
unfolding rate_of
rate_five = refl

above_limit : exceeds (rate_of (pos 0)) config.grpc_max_recv_size ≡ true
unfolding exceeds rate_of
above_limit = refl

copy-paste_example :
    (b' : BadgerDb Store) × (copy memory env 20 none
        (ok 1)
        (ok (CopyStream.info header) ∷ arrivals sent_chunks ending)
        small_db
      ≡ some (Outcome.returns none, b'))
    × Pasted srv srv-InOrder srv-Accepts 5
        (meta_of header)
        sent_checksum
        (concat sent_chunks)
        []
        (paste srv text_of memory env config (pos 5) [] b'.db)
copy-paste_example =
    copy-paste srv srv-InOrder srv-Accepts memory-Healthy env versions-RoundTrips
      clipboard-RoundTrips ulid-Monotonic text_of 20 1 5 none header sent_chunks ending []
      sent_checksum small_db [] config (pos 5) [] ending-next (omega arith) (omega arith) header-ttl
      small_db-Locks (λ k h. refl) within_limit rate_five (omega arith)

copy-Kept_example :
    Kept memory-Healthy env versions-RoundTrips clipboard-RoundTrips 1
      (meta_of header)
      sent_checksum
      (concat sent_chunks)
      none
      20
      small_db
      (copy memory env 20 none
        (ok 1)
        (ok (CopyStream.info header) ∷ arrivals sent_chunks ending)
        small_db)
copy-Kept_example =
    copy-Kept memory-Healthy env versions-RoundTrips clipboard-RoundTrips 20 1 none header
      sent_chunks ending [] sent_checksum small_db [] ending-next (omega arith) (omega arith)
      header-ttl small_db-Locks

abbrev buffer : Bytes
buffer = 0 ∷ 0 ∷ 0 ∷ 0 ∷ []

abbrev gc_start : GrpcReceiver
gc_start = record { srv = arrivals sent_chunks ending; checksum = [] }

abbrev gc_end : GrpcReceiver
gc_end = record { srv = []; checksum = sent_checksum }

gc_start-Delivers : Delivers receiver 2 gc_start (concat sent_chunks) eof gc_end
gc_start-Delivers = arrivals-Delivers sent_chunks ending [] [] sent_checksum ending-next

abbrev chunk_reader : Reader GrpcReceiver
chunk_reader = record { r = gc_start; t = []; t_len = 0; t_index = 0; p_index = 0 }

read-Reads_example :
    Reads receiver 5 4
      (unread chunk_reader ++ concat sent_chunks)
      eof
      gc_end
      (read receiver 5 chunk_reader buffer)
read-Reads_example =
    read-Reads receiver 2 5 chunk_reader buffer (concat sent_chunks) eof gc_end (omega arith)
      (omega arith) refl gc_start-Delivers

abbrev pub empty_writer : Writer (List PastStream)
empty_writer = record { s = []; t = buffer; t_index = 0; p_index = 0; t_len = 4; p_len = 0 }

empty_writer-Ready : Ready 4 empty_writer
empty_writer-Ready = record { size = refl; room = refl; open_chunk = omega arith }

write-Wrote_example :
    Wrote
      (sender srv)
      4
      (send_all (sender srv) [] (feed 4 [] (1 ∷ 2 ∷ 3 ∷ 4 ∷ 5 ∷ [])).full)
      (feed 4 [] (1 ∷ 2 ∷ 3 ∷ 4 ∷ 5 ∷ [])).rest
      5
      (write (sender srv) empty_writer (1 ∷ 2 ∷ 3 ∷ 4 ∷ 5 ∷ []))
write-Wrote_example =
    write-Wrote (sender srv) 4 empty_writer (1 ∷ 2 ∷ 3 ∷ 4 ∷ 5 ∷ []) empty_writer-Ready

write_each-Fed_example :
    Fed
      (sender srv)
      4
      (send_all (sender srv) [] (feed 4 [] (concat sent_chunks)).full)
      (feed 4 [] (concat sent_chunks)).rest
      (write_each (sender srv) empty_writer sent_chunks)
write_each-Fed_example = write_each-Fed (sender srv) 4 empty_writer sent_chunks empty_writer-Ready

chunk_reader-Yields :
    Yields (stream_reader 20) 4 2 chunk_reader (concat sent_chunks) eof sent_checksum
chunk_reader-Yields =
    Delivers-Yields receiver 20 4 2 2 chunk_reader (concat sent_chunks) eof gc_end (omega arith)
      (omega arith) refl gc_start-Delivers (omega arith, (omega arith, omega arith))

write_batch-Stored_example :
    Stored memory-Healthy env versions-RoundTrips clipboard-RoundTrips
      (stream_reader 20)
      1
      (meta_of header)
      sent_checksum
      2
      (concat sent_chunks)
      small_db
      (write_batch memory env (stream_reader 20) 20 (ok 1) chunk_reader (meta_of header) small_db)
write_batch-Stored_example =
    write_batch-Stored memory-Healthy env versions-RoundTrips clipboard-RoundTrips
      (stream_reader 20) 2 20 1 chunk_reader (meta_of header) small_db (concat sent_chunks)
      sent_checksum [] (omega arith) chunk_reader-Yields header-ttl small_db-Locks

paste-Refused_example :
    Refused srv srv-InOrder srv-Accepts text_of memory env ErrorType.key_not_found
      (wrapped "no data to paste: " key_not_found)
      []
      (paste srv text_of memory env config (pos 5) [] empty)
paste-Refused_example =
    paste-Refused srv srv-InOrder srv-Accepts text_of memory env config (pos 5) [] empty
      ErrorType.key_not_found (wrapped "no data to paste: " key_not_found)
      (Reason.no_version 5 within_limit rate_five refl)

-- the header, one full chunk of three bytes and another byte
abbrev short_header : PastStream
short_header = PastStream.info (info_of (meta_of header) sent_checksum)

abbrev short-Pasted :
    Pasted srv srv-InOrder srv-Accepts 3 (meta_of header) sent_checksum (1 ∷ 2 ∷ 3 ∷ 4 ∷ []) [] (
      some (
        Outcome.returns none,
        short_header
            ∷ (chunk_messages ((1 ∷ 2 ∷ 3 ∷ []) ∷ (4 ∷ []) ∷ [])
                ++ checksum_messages sent_checksum),
      ))
short-Pasted = record {
  after =
      short_header
      ∷ (chunk_messages ((1 ∷ 2 ∷ 3 ∷ []) ∷ (4 ∷ []) ∷ []) ++ checksum_messages sent_checksum);
  returned = refl;
  chunks = (1 ∷ 2 ∷ 3 ∷ []) ∷ (4 ∷ []) ∷ [];
  sent = refl;
  whole = refl;
  full = (1 ∷ 2 ∷ 3 ∷ []) ∷ [];
  last = 4 ∷ [];
  cut = refl;
  sizes = ((refl, tt), omega arith);
}

received-Yields_example :
    (k : ℕ) × Fits 2 k 4
    × Yields
        (pasted_stream 5)
        2
        k
        (new_reader (record {
          c = delivered (
              chunk_messages ((1 ∷ 2 ∷ 3 ∷ []) ∷ (4 ∷ []) ∷ []) ++ checksum_messages sent_checksum);
          checksum = [];
        }))
        (1 ∷ 2 ∷ 3 ∷ 4 ∷ [])
        eof
        sent_checksum
received-Yields_example =
    received-Yields srv srv-InOrder srv-Accepts 3 (meta_of header) sent_checksum
      (1 ∷ 2 ∷ 3 ∷ 4 ∷ []) [] _ short-Pasted 5 2 (omega arith) (omega arith)
