-- ===== src/Wire.antt =====
-- src/wire.rs: the wire constants shared by both connection kinds.
use dsh_proxy.Common.{ℕ, ◌*◌, [], ◌∷◌}
use dsh_proxy.Common.Bytes.{Bytes}

abbrev pub magic_client : Bytes
magic_client = b'D' ∷ b'S' ∷ b'H' ∷ b'C' ∷ []

abbrev pub magic_bridge : Bytes
magic_bridge = b'D' ∷ b'S' ∷ b'H' ∷ b'B' ∷ []

abbrev pub version : ℕ
version = 1

abbrev pub head_len : ℕ
head_len = 37

abbrev pub max_noise_msg : ℕ
max_noise_msg = 65535

abbrev pub max_handshake_msg : ℕ
max_handshake_msg = 1024

abbrev pub tag_len : ℕ
tag_len = 16

abbrev pub kind_open : ℕ
kind_open = 0

abbrev pub kind_data : ℕ
kind_data = 1

abbrev pub kind_close : ℕ
kind_close = 2

abbrev pub kind_window : ℕ
kind_window = 3

abbrev pub frame_head : ℕ
frame_head = 8

abbrev pub max_payload : ℕ
max_payload = 16384

abbrev pub window : ℕ
window = 256 * 1024

abbrev pub max_streams_per_bridge : ℕ
max_streams_per_bridge = 2048
