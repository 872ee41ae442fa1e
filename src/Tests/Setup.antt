-- ===== src/Tests/Setup.antt =====
-- Servers and clients that are set up with options.
use webcb.Base.{Option, ◌≡◌, refl, true, false, List, [], ◌∷◌, none, some, Result, ok, Bytes}
use webcb.Base.Int.{pos, positive}
use webcb.Server.Config.{ServerOption, Setup, new_server, apply}
use webcb.Server.Config.Laws.{Safe, new_server-Safe}
use webcb.Client.Options.{
  CopyOption, PasteOption, copy_config, paste_config, default_copy_config, default_paste_config,
}
use webcb.Client.Options.Laws.{Usable, options-Usable}
use webcb.Tls.{TlsConfig, ClientAuth, empty_config, load_certificate}
use webcb.Tls.Laws.{Loaded, load_certificate-Loaded}

abbrev key_of : Bytes → Bytes → Result Bytes
key_of cert key = ok key

abbrev pool_of_ca : Bytes → Option Bytes
pool_of_ca ca = some ca

abbrev server_options : List ServerOption
server_options =
    ServerOption.with_grpc_max_recv_size (pos 0)
    ∷ ServerOption.with_credentials (1 ∷ []) (2 ∷ [])
    ∷ ServerOption.with_certificate_authority (3 ∷ [])
    ∷ []

abbrev secured_setup : Setup (TlsConfig Bytes Bytes)
secured_setup =
    Setup.secured
      (record {
        grpc_max_recv_size = pos 209_715_200;
        ca = 3 ∷ [];
        cert = 1 ∷ [];
        key = 2 ∷ [];
        dev = false;
      })
      (record {
        certificates = (2 ∷ []) ∷ [];
        root_cas = some (3 ∷ []);
        client_cas = some (3 ∷ []);
        client_auth = ClientAuth.require_and_verify_client_cert;
      })

secured_by_options : new_server pool_of_ca key_of server_options ≡ ok secured_setup
unfolding new_server apply load_certificate
secured_by_options = refl

new_server-Safe_example : Safe pool_of_ca key_of server_options secured_setup
new_server-Safe_example =
    new_server-Safe pool_of_ca key_of server_options secured_setup secured_by_options

abbrev loaded_config : TlsConfig Bytes Bytes
loaded_config = record {
  certificates = (9 ∷ []) ∷ (2 ∷ []) ∷ [];
  root_cas = none;
  client_cas = none;
  client_auth = ClientAuth.no_client_cert;
}

abbrev given_config : TlsConfig Bytes Bytes
given_config = record empty_config { certificates = (9 ∷ []) ∷ [] }

loads_without_ca :
    load_certificate pool_of_ca key_of [] (1 ∷ []) (2 ∷ []) given_config ≡ ok loaded_config
unfolding load_certificate
loads_without_ca = refl

load_certificate-Loaded_example :
    Loaded pool_of_ca key_of [] (1 ∷ []) (2 ∷ []) given_config loaded_config
load_certificate-Loaded_example =
    load_certificate-Loaded pool_of_ca key_of [] (1 ∷ []) (2 ∷ []) given_config loaded_config
      loads_without_ca

options-Usable_example :
    Usable (
      copy_config
        (CopyOption.with_ttl (pos 0) ∷ CopyOption.with_transfer_rate (pos 3) ∷ [])
        default_copy_config)
    × (positive
          (paste_config
            (PasteOption.with_transfer_rate (pos 0) ∷ [])
            default_paste_config).chunk_size
        ≡ true)
options-Usable_example =
    options-Usable (CopyOption.with_ttl (pos 0) ∷ CopyOption.with_transfer_rate (pos 3) ∷ [])
      (PasteOption.with_transfer_rate (pos 0) ∷ [])
