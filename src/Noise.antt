-- ===== src/Noise.antt =====
-- src/noise.rs: the codec that carries mux frames over the bridge link.
pub mod RoundTrip
pub mod Decode
pub mod Handshake
pub mod Keys
pub mod Tests
use dsh_proxy.Common.{
  ℕ, suc, ◌+◌, ◌-◌, ◌^◌, ◌%◌, [], ◌∷◌, ◌++◌, List, length, get_or, take, drop, replicate, Option,
  none, some, ltb, if◌then◌else◌, Result, ok, err, invalid_data,
}
use dsh_proxy.Common.Bytes.{Bytes, put_u16, u16_from_be_bytes}
use dsh_proxy.Frame.{Frame, staged}
use dsh_proxy.Wire.{tag_len, max_noise_msg}

-- `snow::StatelessTransportState`. Each call is given its nonce and the size of the buffer that it
-- writes to, and answers what it put there, or `none` for an error.
pub record Transport : Type 0 where
  pub write_message : ℕ → Bytes → ℕ → Option Bytes
  pub read_message : ℕ → Bytes → ℕ → Option Bytes

pub record NoiseEncoder : Type 0 where
  pub transport : Transport
  pub nonce : ℕ
  pub scratch : Bytes

pub record NoiseDecoder : Type 0 where
  pub transport : Transport
  pub nonce : ℕ

unfoldable pub codecs : Transport → NoiseDecoder × NoiseEncoder
codecs t = (record { transport = t; nonce = 0 }, record { transport = t; nonce = 0; scratch = [] })

-- `self.nonce += 1` on a u64.
abbrev pub next_nonce : ℕ → ℕ
next_nonce n = (n + 1) % 2 ^ 64

-- `dst[start..]` is written from its front: what was there is overwritten, the tail stays.
abbrev pub overwrite : Bytes → Bytes → Bytes
overwrite out buf = out ++ drop (length out) buf

-- The part of `encode` behind the size check; `dst` ends with the length prefix.
unfoldable pub seal : NoiseEncoder → ℕ → Bytes → NoiseEncoder × Bytes × Result (Unit {0})
seal e sealed dst =
    let room : Bytes = replicate sealed 0 in
    elim (e.transport.write_message e.nonce e.scratch sealed) [
      | none ↦ (e, dst ++ room, err invalid_data)
      | some out ↦ (
        record e { nonce = next_nonce e.nonce },
        take (length dst + length out) (dst ++ overwrite out room),
        ok tt,
      )
    ]

-- The encoder, the write buffer and the result, errors included.
unfoldable pub encode : NoiseEncoder → Frame → Bytes → NoiseEncoder × Bytes × Result (Unit {0})
encode e f dst =
    let e' = record e { scratch = staged f } in
    let sealed = length (staged f) + tag_len in
    if ltb max_noise_msg sealed
    then (e', dst, err invalid_data)
    else seal e' sealed (dst ++ put_u16 (sealed % 2 ^ 16))

-- The part of `decode` behind the checks: `len` bytes are there, behind the prefix.
unfoldable pub unseal : NoiseDecoder → ℕ → Bytes → NoiseDecoder × Bytes × Result (Option Bytes)
unseal d len src =
    let rest = drop len (drop 2 src) in
    elim (d.transport.read_message d.nonce (take len (drop 2 src)) (len - tag_len)) [
      | none ↦ (d, rest, err invalid_data)
      | some plain ↦ (record d { nonce = next_nonce d.nonce }, rest, ok (some plain))
    ]

unfoldable pub decode : NoiseDecoder → Bytes → NoiseDecoder × Bytes × Result (Option Bytes)
decode d src =
    let len = u16_from_be_bytes (get_or src 0 0) (get_or src 1 0) in
    if ltb (length src) 2
    then (d, src, ok none)
    else if ltb len tag_len
    then (d, src, err invalid_data)
    else if ltb (length src) (2 + len)
    then (d, src, ok none)
    else unseal d len src

-- Frames fed to the encoder one after the other, as the writer task does; it stops at an error.
unfoldable pub feed_all :
    NoiseEncoder → List Frame → Bytes → NoiseEncoder × Bytes × Result (Unit {0})
feed_all e [] dst = (e, dst, ok tt)
feed_all e (f ∷ fs) dst =
    let (e', dst', r) = encode e f dst in
    elim r [ ok _ ↦ feed_all e' fs dst' | err x ↦ (e', dst', err x) ]
