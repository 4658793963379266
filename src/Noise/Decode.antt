-- ===== src/Noise/Decode.antt =====
-- The decoder and the encoder of src/noise.rs on any input: what they wait for, refuse and consume.
use dsh_proxy.Common.{
  ℕ, ◌+◌, ◌-◌, ◌^◌, ◌≤◌, ◌<◌, ◌≡◌, ◌≢◌, refl, ap, [], ◌∷◌, ◌++◌, length, get_or, take, drop, none,
  some, ok, err, invalid_data, arith, All, length-append, length-drop, take-append-drop,
}
use dsh_proxy.Common.Bytes.{Bytes, IsByte, u16_from_be_bytes, u16-put_u16}
use dsh_proxy.Frame.{Frame, staged, length-staged}
use dsh_proxy.Wire.{tag_len, max_noise_msg}
use dsh_proxy.Noise.{NoiseEncoder, NoiseDecoder, encode, decode, unseal, next_nonce}
use dsh_proxy.Noise.RoundTrip.{packet}

-- The length that the first two bytes announce.
abbrev pub announced : Bytes → ℕ
announced src = u16_from_be_bytes (get_or src 0 0) (get_or src 1 0)

-- As long as a packet is not whole, the decoder takes nothing and asks for more.
pub decode_waits :
    (d : NoiseDecoder) (c src more : Bytes)
    → tag_len ≤ length c
    → length c < 2 ^ 16
    → src ++ more ≡ packet c
    → more ≢ []
    → decode d src ≡ (d, src, ok none)
unfolding decode
decode_waits d c [] more lo hi e ne = refl
decode_waits d c (a ∷ []) more lo hi e ne = refl
decode_waits d c (a ∷ b ∷ src) [] lo hi e ne = absurd (ne refl)
decode_waits d c (a ∷ b ∷ src) (x ∷ more) lo hi e ne = ground (
  arith,
  ap (λ l. get_or l 0 0) e,
  ap (λ l. get_or l 1 0) e,
  ap length e,
  length-append src (x ∷ more),
  u16-put_u16 (length c) hi,
)

-- Whatever bytes have arrived, the decoder keeps them only while they are fewer than one packet of
-- the largest length, so its buffer is bounded.
pub decode-none_bounded :
    (d d' : NoiseDecoder) (src src' : Bytes)
    → All IsByte src
    → decode d src ≡ (d', src', ok none)
    → (d' ≡ d) × (src' ≡ src) × (length src < 2 + 2 ^ 16)
unfolding decode unseal
decode-none_bounded d d' [] src' b h = ground arith
decode-none_bounded d d' (a ∷ []) src' b h = ground arith
decode-none_bounded d d' (a ∷ a' ∷ src) src' b h = ground arith

-- A message comes out only if the transport opened it under the decoder's nonce; exactly its packet
-- has been taken off the buffer, and the nonce has moved on by one.
pub decode-some_opened :
    (d d' : NoiseDecoder) (src src' p : Bytes)
    → decode d src ≡ (d', src', ok (some p))
    → let c = take (announced src) (drop 2 src) in
      (d.transport.read_message d.nonce c (announced src - tag_len) ≡ some p)
      × (d' ≡ record d { nonce = next_nonce d.nonce })
      × (c ++ src' ≡ drop 2 src)
      × (length src ≡ 2 + announced src + length src')
      × (tag_len ≤ announced src)
unfolding decode unseal
decode-some_opened d d' src src' p h = ground (
  arith,
  take-append-drop (announced src) (drop 2 src),
  length-drop (announced src) (drop 2 src),
  length-drop 2 src,
)

-- A frame too large for one message is refused before anything is written or a nonce is spent, and
-- only such a frame leaves the buffer as it was.
pub encode_oversize :
    (e : NoiseEncoder) (f : Frame) (dst : Bytes)
    → max_noise_msg < length f.payload + 24
    → encode e f dst ≡ (record e { scratch = staged f }, dst, err invalid_data)
unfolding encode
encode_oversize e f dst h = ground (arith, length-staged f)
