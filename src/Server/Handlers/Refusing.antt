-- ===== src/Server/Handlers/Refusing.antt =====
-- `Paste` of server/clipboard.go when there is nothing that it may send.
use webcb.Base.{
  ℕ, ◌≡◌, ap, true, false, [], ◌∷◌, ◌++◌, Option, none, some, Error, key_not_found, message,
  wrapped, String,
}
use webcb.Base.Int.{ℤ, pos}
use webcb.Stream.Writer.{new_writer}
use webcb.Storage.Badger.{Badger, missing}
use webcb.Storage.Keys.{latest_key}
use webcb.Storage.Write.{Env}
use webcb.Storage.Read.{read_batch, send_latest}
use webcb.Messages.{PastStream, ErrorType, Outgoing, InOrder}
use webcb.Server.Config.{Config}
use webcb.Server.Streams.{send_error}
use webcb.Server.Handlers.{
  Outcome, paste, paste_at, pasted, sent_error, rate_of, exceeds, is_key_not_found,
}
use webcb.Messages.{Accepts}

module _ {S : Type 0} (srv : Outgoing S PastStream) (o : InOrder srv) (accepts : Accepts srv)
    (text_of : Error → String) {Db Batch Txn : Type 0} (badger : Badger Db Batch Txn)
    (env : Env) where
  -- The one message that is sent says why.
  abbrev pub Refused : ErrorType → Error → S → Option (Outcome × S) → Type 0
  Refused kind e s out =
      (s' : S) × (out ≡ some (Outcome.returns none, s'))
      × (srv.sent s' ≡ srv.sent s ++ PastStream.error kind (text_of e) ∷ [])

  sent_error-Refused :
      (kind : ErrorType) (e : Error) (s : S)
      → Refused kind e s (some (sent_error srv text_of (send_error srv s (text_of e) kind)))
  unfolding sent_error send_error
  sent_error-Refused kind e s =
      let m = PastStream.error kind (text_of e) in
      (
        (srv.send s m).1,
        ap (λ (x : Option Error). some (Outcome.returns x, (srv.send s m).1)) (accepts s m),
        o.accepted s m (accepts s m),
      )

  -- Why a paste is refused: its rate is above the limit, or it is positive and within the limit, and
  -- there is no version.
  pub data Reason (c : Config) (rate : ℤ) (db : Db) : ErrorType → Error → Type 0 where
    too_fast :
        exceeds (rate_of rate) c.grpc_max_recv_size ≡ true
        → Reason c rate db ErrorType.invalid_option
            (message "transfer rate is above the server configuration limit")
    no_version :
        (n : ℕ)
        → exceeds (rate_of rate) c.grpc_max_recv_size ≡ false
        → rate_of rate ≡ pos n
        → badger.get db latest_key ≡ missing
        → Reason c rate db ErrorType.key_not_found (wrapped "no data to paste: " key_not_found)

  -- A rate above the limit is refused with an invalid option. A positive rate within the limit is
  -- refused with a missing key if there is no version. Either way the client, if it takes the
  -- message, gets that one message and no data, and the call itself has no error.
  pub paste-Refused :
      (c : Config) (rate : ℤ) (s : S) (db : Db) (kind : ErrorType) (e : Error)
      → Reason c rate db kind e
      → Refused kind e s (paste srv text_of badger env c rate s db)
  unfolding paste paste_at pasted read_batch send_latest is_key_not_found new_writer
  paste-Refused c rate s db kind e (Reason.too_fast high) =
      rw high (sent_error-Refused ErrorType.invalid_option _ s)
  paste-Refused c rate s db kind e (Reason.no_version n low r gone) =
      rw (low, r, gone)
        (sent_error-Refused ErrorType.key_not_found (wrapped "no data to paste: " key_not_found) s)
