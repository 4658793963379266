-- ===== src/Noise/Keys.antt =====
-- src/noise.rs: the proxy's own key pair. snow's generator and the X25519 base multiplication are
-- parameters.
use dsh_proxy.Common.{Option, none, some, length, ◌==◌, if◌then◌else◌}
use dsh_proxy.Common.Bytes.{Bytes}

-- snow's `Keypair`.
pub record Keypair : Type 0 where
  pub private : Bytes
  pub public : Bytes

unfoldable pub generate_keypair : Option Keypair → Option (Bytes × Bytes)
generate_keypair none = none
generate_keypair (some pair) = some (pair.private, pair.public)

unfoldable pub public_key_of : (Bytes → Bytes) → Bytes → Option Bytes
public_key_of public_of private_key =
    if length private_key == 32 then some (public_of private_key) else none
