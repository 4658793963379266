-- ===== src/Edge/Tests.antt =====
-- src/edge.rs and the front of `serve_client` at concrete inputs.
use dsh_proxy.Common.{◌≡◌, refl, [], ◌∷◌, replicate, some, true, false, lookup, arith}
use dsh_proxy.Common.Text.{to_lower}
use dsh_proxy.Edge.{Request, tunnel_task, is_upgrade, eq_ignore_ascii_case}
use dsh_proxy.Edge.Laws.{preamble, tunnel_task-greets}
use dsh_proxy.Frame.{control}
use dsh_proxy.Mux.Send.{data_frame}
use dsh_proxy.Mux.Tests.Machine.{lawful, steady, lawful_steady}
use dsh_proxy.Mux.Tests.Streams.{pair, rich}
use dsh_proxy.Proxy.Client.{runs, open_for, filled, uplink}
use dsh_proxy.Proxy.Client.Laws.{Carried, uplink-Carried}
use dsh_proxy.Wire.{kind_open}

abbrev request : Request
request = record { path = "/tunnel"; upgrade = some "WebSocket"; websocket_key = some "dGhl" }

-- The upgrade is recognised in any case.
request_upgrades : is_upgrade request ≡ true
unfolding is_upgrade eq_ignore_ascii_case to_lower
request_upgrades = refl

tunnel_task-greets_example :
    let s' = (open_for rich (preamble (replicate 32 9))).0 in
    (tunnel_task {rt = steady} (λ key. some rich) (some (preamble (replicate 32 9)))
      ≡ some (some s', runs (record { id = 2; at = 1 })))
    × (s'.out.frames ≡ control 2 kind_open ∷ data_frame 2 (preamble (replicate 32 9)) ∷ [])
unfolding lookup
tunnel_task-greets_example =
    tunnel_task-greets lawful_steady (λ o f. refl) (λ key. some rich) (replicate 32 9) rich
      (record { permits = 5; shut = false }) refl refl (λ j a h. ground arith) refl

uplink-Carried_example :
    Carried lawful pair
      (record { id = 1; at = 0 })
      (filled (1 ∷ 2 ∷ []) ∷ filled [] ∷ [])
      (uplink pair (record { id = 1; at = 0 }) (filled (1 ∷ 2 ∷ []) ∷ filled [] ∷ []))
uplink-Carried_example =
    uplink-Carried lawful pair (record { id = 1; at = 0 }) (filled (1 ∷ 2 ∷ []) ∷ filled [] ∷ [])
