-- ===== src/Ws/Accept.antt =====
-- src/ws.rs: the answer to a client's key. SHA-1 and base64 are parameters.
use dsh_proxy.Common.{◌++◌}
use dsh_proxy.Common.Bytes.{Bytes}
use dsh_proxy.Common.Text.{codes}

abbrev pub guid : Bytes
guid = codes "258EAFA5-E914-47DA-95CA-C5AB0DC85B11"

unfoldable pub accept_key : (sha1 base64 : Bytes → Bytes) → Bytes → Bytes
accept_key sha1 base64 client_key = base64 (sha1 (client_key ++ guid))
