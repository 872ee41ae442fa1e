-- ===== src/Tests/Refusals.antt =====
-- Pastes that the server refuses.
use webcb.Base.{◌≡◌, refl, [], arith, Option, none, ok, Error, key_not_found, wrapped}
use webcb.Storage.Batch.{BadgerDb}
use webcb.Storage.Open.{drop_all}
use webcb.Messages.{ErrorType}
use webcb.Server.Handlers.{Outcome}
use webcb.Server.Handlers
use webcb.Server.Handlers.Refusing.{Reason}
use webcb.Client.Paste.Refused.{Informed, paste-Informed}
use webcb.Transfer.Cleared.{Drops, clear-paste}
use webcb.Tests.Store.{Store, empty, memory}
use webcb.Tests.Codecs.{env}
use webcb.Tests.Examples.{
  srv, srv-InOrder, srv-Accepts, text_of, small_db, config, within_limit, rate_five,
}
use webcb.Tests.Layers.{readers}
use webcb.Tests.Transfers.{crypto, sink, opts_past, opts_past-size, password, rate_allowed}

paste-Informed_example :
    Informed crypto
      (readers 20)
      sink
      srv
      srv-InOrder
      srv-Accepts
      text_of
      memory
      env
      0
      opts_past
      5
      config
      []
      empty
      (ok password)
      []
      (wrapped "no data to paste: " key_not_found)
paste-Informed_example =
    paste-Informed crypto (readers 20) sink srv srv-InOrder srv-Accepts text_of memory env 0 5
      opts_past config [] empty (ok password) [] ErrorType.key_not_found
      (wrapped "no data to paste: " key_not_found) opts_past-size refl
      (Reason.no_version 5 within_limit rate_five refl)

abbrev drop : Store → Option Error × Store
drop d = (none, empty)

drop-Drops : Drops memory drop
drop-Drops = record { succeeds = λ d. refl; empties = λ d k. refl }

clear-paste_example :
    (b' : BadgerDb Store) × (Handlers.clear memory env none (drop_all drop) small_db
      ≡ (Outcome.returns none, b'))
    × Informed crypto
        (readers 20)
        sink
        srv
        srv-InOrder
        srv-Accepts
        text_of
        memory
        env
        0
        opts_past
        5
        config
        []
        b'.db
        (ok password)
        []
        (wrapped "no data to paste: " key_not_found)
clear-paste_example =
    clear-paste crypto (readers 20) sink srv srv-InOrder srv-Accepts text_of memory env drop
      drop-Drops 0 5 opts_past config [] small_db (ok password) [] opts_past-size (omega arith)
      rate_allowed refl
