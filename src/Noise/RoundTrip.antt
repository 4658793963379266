-- ===== src/Noise/RoundTrip.antt =====
-- What the encoder of src/noise.rs writes, the decoder at the other end reads back.
use dsh_proxy.Common.{
  ℕ, zero, suc, ◌+◌, ◌-◌, ◌^◌, ◌≤◌, ◌<◌, ◌≡◌, refl, sym, ap, ◌∙◌, [], ◌∷◌, ◌++◌, List, map, length,
  take, drop, replicate, none, some, ok, err, arith, All, append-nil, append_assoc, length-append,
  take-append_self, drop-append_self,
}
use dsh_proxy.Common.Bytes.{Bytes, put_u16, u16-put_u16}
use dsh_proxy.Frame.{Frame, staged, length-staged}
use dsh_proxy.Wire.{tag_len, max_noise_msg}
use dsh_proxy.Noise.{
  Transport, NoiseEncoder, NoiseDecoder, encode, seal, decode, unseal, next_nonce, overwrite,
  feed_all,
}

-- What is relied on of two transport states that one handshake made: under every nonce but the
-- last, a message that fits is sealed with a tag, and the other end opens it under the same nonce.
pub record Paired (t u : Transport) : Type 0 where
  pub seals :
      (n : ℕ) (p : Bytes)
      → n + 1 < 2 ^ 64
      → length p + tag_len ≤ max_noise_msg
      → (c : Bytes) × (t.write_message n p (length p + tag_len) ≡ some c)
        × (length c ≡ length p + tag_len)
  pub opens :
      (n : ℕ) (p c : Bytes)
      → t.write_message n p (length p + tag_len) ≡ some c
      → u.read_message n c (length p) ≡ some p

-- One sealed message on the wire.
abbrev pub packet : Bytes → Bytes
packet c = put_u16 (length c) ++ c

abbrev pub Fits : Frame → Type 0
Fits f = length f.payload + 24 ≤ max_noise_msg

seal_whole :
    (e : NoiseEncoder) (dst c : Bytes) (n : ℕ)
    → e.transport.write_message e.nonce e.scratch n ≡ some c
    → seal e n dst ≡ (record e { nonce = next_nonce e.nonce }, dst ++ c, ok tt)
unfolding seal
seal_whole e dst c n w = ground (arith, kept)
  where
    kept : take (length dst + length c) (dst ++ overwrite c (replicate n 0)) ≡ dst ++ c
    kept =
        rw (← append_assoc dst c (drop (length c) (replicate n 0)))
          (take-append_self (dst ++ c) _ _ (sym (length-append dst c)))

pub encode-Fits :
    (e : NoiseEncoder) (f : Frame) (dst c : Bytes)
    → Fits f
    → e.transport.write_message e.nonce (staged f) (length (staged f) + tag_len) ≡ some c
    → length c ≡ length (staged f) + tag_len
    → encode e f dst
      ≡ (record e { nonce = next_nonce e.nonce; scratch = staged f }, dst ++ packet c, ok tt)
unfolding encode
encode-Fits e f dst c fits w l = ground (
  arith,
  length-staged f,
  append_assoc dst (put_u16 (length c)) c,
  seal_whole (record e { scratch = staged f }) (dst ++ put_u16 (length c)) c
      (length (staged f) + tag_len) w,
)

unseal-packet :
    (d : NoiseDecoder) (c rest p : Bytes)
    → d.transport.read_message d.nonce c (length c - tag_len) ≡ some p
    → unseal d (length c) (packet c ++ rest)
      ≡ (record d { nonce = next_nonce d.nonce }, rest, ok (some p))
unfolding unseal
unseal-packet d c rest p r =
    ground (arith, take-append_self c rest (length c) refl, drop-append_self c rest (length c) refl)

pub decode-packet :
    (d : NoiseDecoder) (c rest p : Bytes)
    → tag_len ≤ length c
    → length c < 2 ^ 16
    → d.transport.read_message d.nonce c (length c - tag_len) ≡ some p
    → decode d (packet c ++ rest) ≡ (record d { nonce = next_nonce d.nonce }, rest, ok (some p))
unfolding decode
decode-packet d c rest p lo hi r =
    ground (arith, u16-put_u16 (length c) hi, length-append c rest, unseal-packet d c rest p r)

-- How `FramedRead` drives the decoder over what it has buffered, for at most the given rounds.
unfoldable pub drain : ℕ → NoiseDecoder → Bytes → List Bytes × NoiseDecoder × Bytes
drain zero d src = ([], d, src)
drain (suc rounds) d src =
    let (d', src', r) = decode d src in
    elim r [
      | ok (some p) ↦ let (ps, d'', rest) = drain rounds d' src' in (p ∷ ps, d'', rest)
      | ok none ↦ ([], d', src')
      | err x ↦ ([], d', src')
    ]

feed_all_step :
    (e e' : NoiseEncoder) (f : Frame) (fs : List Frame) (dst dst' : Bytes)
    → encode e f dst ≡ (e', dst', ok tt)
    → feed_all e (f ∷ fs) dst ≡ feed_all e' fs dst'
unfolding feed_all
feed_all_step e e' f fs dst dst' h = ground arith

drain_step :
    (n : ℕ) (d d' : NoiseDecoder) (src src' p : Bytes) {ps : List Bytes} {d'' : NoiseDecoder}
    → decode d src ≡ (d', src', ok (some p))
    → drain n d' src' ≡ (ps, d'', [])
    → drain (suc n) d src ≡ (p ∷ ps, d'', [])
unfolding drain
drain_step n d d' src src' p h k = ground arith

drain_nothing : (rounds : ℕ) (d : NoiseDecoder) → drain rounds d [] ≡ ([], d, [])
unfolding drain decode
drain_nothing zero d = refl
drain_nothing (suc rounds) d = refl

-- One frame through both ends: it is written as one packet, and the decoder takes that packet off.
pub encode-decode :
    (e : NoiseEncoder) (d : NoiseDecoder) (f : Frame)
    → Paired e.transport d.transport
    → e.nonce ≡ d.nonce
    → e.nonce + 1 < 2 ^ 64
    → Fits f
    → (c : Bytes) × ((dst : Bytes)
        → encode e f dst
          ≡ (record e { nonce = e.nonce + 1; scratch = staged f }, dst ++ packet c, ok tt))
      × ((rest : Bytes)
          → decode d (packet c ++ rest)
            ≡ (record d { nonce = d.nonce + 1 }, rest, ok (some (staged f))))
encode-decode e d f pair same room fits =
    let big : length (staged f) + tag_len ≤ max_noise_msg = omega (arith, length-staged f) in
    let (c, w, l) = pair.seals e.nonce (staged f) room big in
    (
      c,
      λ dst. ground (arith, encode-Fits e f dst c fits w l),
      λ rest. ground (
        arith,
        big,
        decode-packet d c rest (staged f) (omega (arith, length-staged f))
            (omega (arith, length-staged f)),
        pair.opens e.nonce (staged f) c w,
      ),
    )

-- Frames that fit, encoded one after the other, come out of the paired decoder as the same staged
-- frames in the same order; nothing is left over, and the two nonces stay equal.
pub feed-drain :
    (e : NoiseEncoder) (d : NoiseDecoder) (fs : List Frame)
    → Paired e.transport d.transport
    → e.nonce ≡ d.nonce
    → e.nonce + length fs < 2 ^ 64
    → All Fits fs
    → (e' : NoiseEncoder) × (d' : NoiseDecoder) × (wire : Bytes) × ((dst : Bytes)
        → feed_all e fs dst ≡ (e', dst ++ wire, ok tt))
      × (drain (length fs) d wire ≡ (map staged fs, d', []))
      × (e'.nonce ≡ d'.nonce)
      × (e'.nonce ≡ e.nonce + length fs)
unfolding feed_all
feed-drain e d [] pair same room fits =
    (e, d, [], λ dst. rw append-nil, drain_nothing 0 d, same, omega arith)
feed-drain e d (f ∷ fs) pair same room fits =
    let (c, enc, dec) = encode-decode e d f pair same (omega arith) fits.0 in
    let (e', d', wire, feeds, drains, ends, count) =
      feed-drain (record e { nonce = e.nonce + 1; scratch = staged f })
        (record d { nonce = d.nonce + 1 }) fs pair (ap (λ n. n + 1) same) (omega arith) fits.1 in
    (
      e',
      d',
      packet c ++ wire,
      λ dst.
          feed_all_step e _ f fs dst _ (enc dst)
          ∙ feeds (dst ++ packet c)
          ∙ ap (λ b. (e', b, ok tt)) (append_assoc dst (packet c) wire),
      drain_step (length fs) d _ _ wire (staged f) (dec wire) drains,
      ends,
      omega arith,
    )
