-- ===== src/Transfer/Cleared.antt =====
-- `Clear` and then `Paste`, of server/clipboard.go and client/client.go.
use webcb.Base.{
  ℕ, ◌<◌, ◌≡◌, refl, false, [], List, Option, none, Result, Error, key_not_found, wrapped, Bytes,
  String,
}
use webcb.Base.Int.{pos}
use webcb.Stream.Reader.{Reader}
use webcb.Storage.Badger.{Badger, missing}
use webcb.Storage.Batch.{BadgerDb}
use webcb.Storage.Write.{Env}
use webcb.Storage.Open.{drop_all}
use webcb.Messages.{PastStream, ErrorType, Outgoing, InOrder, Accepts}
use webcb.Crypto.{Crypto}
use webcb.Server.Config.{Config}
use webcb.Server.Handlers.{Outcome, exceeds, rate_of}
use webcb.Server.Handlers
use webcb.Server.Handlers.Refusing.{Reason}
use webcb.Client.Options.{PasteOption, paste_config, default_paste_config}
use webcb.Client.Streams.{PasteReceiver}
use webcb.Client.Layers.{Readers}
use webcb.Client.Paste.{Sink}
use webcb.Client.Paste.Refused.{Informed, paste-Informed}
use webcb.Transfer.Arrivals.{rate_same}

-- `DropAll` of badger deletes every key.
pub record Drops {Db Batch Txn : Type 0} (badger : Badger Db Batch Txn)
    (drop : Db → Option Error × Db) : Type 0 where
  pub succeeds : (d : Db) → (drop d).0 ≡ none
  pub empties : (d : Db) (k : Bytes) → badger.get (drop d).1 k ≡ missing

module _ {K Src O : Type 0} (crypto : Crypto K) (readers : Readers (Reader PasteReceiver) K Src)
    (sink : Sink O) {S Db Batch Txn : Type 0} (srv : Outgoing S PastStream) (o : InOrder srv)
    (accepts : Accepts srv) (text_of : Error → String) (badger : Badger Db Batch Txn) (env : Env)
    (drop : Db → Option Error × Db) (drops : Drops badger drop) where
  -- After a `Clear` whose context is not done, which returns no error, and until the next copy, a paste at
  -- a rate that is positive and within the limit ends with an error for the client, which says that
  -- there is no data, and puts out nothing. The stream takes every message and has sent none before;
  -- `DropAll` of badger deletes every key.
  pub clear-paste :
      (rounds n : ℕ) (opts : List PasteOption) (c : Config) (s : S) (b : BadgerDb Db)
      (secret : Result Bytes) (out : O)
      → (paste_config opts default_paste_config).chunk_size ≡ pos n
      → 0 < n
      → exceeds (pos n) c.grpc_max_recv_size ≡ false
      → srv.sent s ≡ []
      → (b' : BadgerDb Db) × (Handlers.clear badger env none (drop_all drop) b
          ≡ (Outcome.returns none, b'))
        × Informed crypto readers sink srv o accepts text_of badger env rounds opts n c s b'.db
            secret out
            (wrapped "no data to paste: " key_not_found)
  unfolding Handlers.clear drop_all
  clear-paste rounds n opts c s b secret out size p low empty = (
    record b { db = (drop b.db).1 },
    rw (drops.succeeds b.db) refl,
    paste-Informed crypto readers sink srv o accepts text_of badger env rounds n opts c s
        (drop b.db).1 secret out ErrorType.key_not_found
        (wrapped "no data to paste: " key_not_found) size empty
        (Reason.no_version n (rw (rate_same n p) low) (rate_same n p) (drops.empties b.db _)),
  )
