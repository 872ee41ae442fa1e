-- ===== src/Client/Paste/Refused.antt =====
-- What the client makes of a paste that the server refuses.
use webcb.Base.{
  ℕ, ◌≡◌, ◌∙◌, ap, List, [], ◌∷◌, ◌++◌, none, some, Result, ok, Error, message, Bytes, String,
}
use webcb.Base.Int.{pos}
use webcb.Stream.Reader.{Reader}
use webcb.Storage.Badger.{Badger}
use webcb.Storage.Write.{Env}
use webcb.Messages.{PastStream, ErrorType, Incoming, Outgoing, InOrder, Accepts, recv}
use webcb.Crypto.{Crypto}
use webcb.Server.Config.{Config}
use webcb.Server.Handlers.{Outcome}
use webcb.Server.Handlers
use webcb.Server.Handlers.Refusing.{Reason, paste-Refused}
use webcb.Client.Options.{PasteOption, paste_config, default_paste_config}
use webcb.Client.Streams.{PasteReceiver}
use webcb.Client.Streams.Laws.{delivered}
use webcb.Client.Layers.{Readers}
use webcb.Client.Paste.{Sink, PasteCall, call_of, first, called, paste}

module _ {K Src O : Type 0} (crypto : Crypto K) (readers : Readers (Reader PasteReceiver) K Src)
    (sink : Sink O) where
  paste-error :
      (rounds n : ℕ) (opts : List PasteOption) (server : PasteCall → Result (Incoming PastStream))
      (secret : Result Bytes) (out : O) (kind : ErrorType) (text : String) (c : Incoming PastStream)
      → (paste_config opts default_paste_config).chunk_size ≡ pos n
      → server (call_of (pos n)) ≡ ok (ok (PastStream.error kind text) ∷ c)
      → paste crypto readers sink rounds opts server secret out ≡ some (some (message text), out)
  unfolding paste called first recv
  paste-error rounds n opts server secret out kind text c e f = rw (e, f)

  module _ {S Db Batch Txn : Type 0} (srv : Outgoing S PastStream) (o : InOrder srv)
      (accepts : Accepts srv) (text_of : Error → String) (badger : Badger Db Batch Txn)
      (env : Env) where
    -- The handler of a paste ended without an error of its own, and the client's call with this one;
    -- the output is as it was.
    pub record Informed (rounds : ℕ) (opts : List PasteOption) (n : ℕ) (c : Config) (s : S)
        (db : Db) (secret : Result Bytes) (out : O) (e : Error) : Type 0 where
      pub after : S
      pub answered :
          Handlers.paste srv text_of badger env c (pos n) s db ≡ some (Outcome.returns none, after)
      pub told :
          paste crypto readers sink rounds opts (λ call. ok (delivered (srv.sent after))) secret out
          ≡ some (some (message (text_of e)), out)

    -- When the server refuses a paste, since the rate is too high or there is no version, the client
    -- returns an error with the text that the server sent, and puts out nothing, whatever the secret
    -- and without a single read. The stream takes every message and has sent none before.
    pub paste-Informed :
        (rounds n : ℕ) (opts : List PasteOption) (c : Config) (s : S) (db : Db)
        (secret : Result Bytes) (out : O) (kind : ErrorType) (e : Error)
        → (paste_config opts default_paste_config).chunk_size ≡ pos n
        → srv.sent s ≡ []
        → Reason srv o accepts text_of badger env c (pos n) db kind e
        → Informed rounds opts n c s db secret out e
    paste-Informed rounds n opts c s db secret out kind e size empty reason =
        let (s', r, q) =
          paste-Refused srv o accepts text_of badger env c (pos n) s db kind e reason in
        record {
          after = s';
          answered = r;
          told =
              paste-error rounds n opts (λ call. ok (delivered (srv.sent s'))) secret out kind
                (text_of e) [] size
                (ap (λ l. ok (delivered l))
                  (q
                    ∙ ap (λ (l : List PastStream). l ++ PastStream.error kind (text_of e) ∷ [])
                        empty));
        }
