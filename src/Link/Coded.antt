-- ===== src/Link/Coded.antt =====
-- src/noise.rs: the bytes of frames that one end of a link has sealed, as the other end takes them apart.
use dsh_proxy.Common.{
  ℕ, ◌+◌, ◌^◌, ◌≤◌, ◌<◌, ◌≡◌, refl, sym, ap, subst, ◌∙◌, List, [], ◌∷◌, ◌++◌, length, some, ok,
  append-nil, append_assoc, arith,
}
use dsh_proxy.Common.Bytes.{Bytes}
use dsh_proxy.Frame.{Frame, staged, length-staged}
use dsh_proxy.Wire.{tag_len, max_noise_msg}
use dsh_proxy.Noise.{Transport, NoiseEncoder, encode, next_nonce}
use dsh_proxy.Noise.RoundTrip.{Fits, packet, encode-Fits}

-- The packet that seals one frame under one nonce.
pub record Seals (t : Transport) (n : ℕ) (f : Frame) (c : Bytes) : Type 0 where
  pub sealed : t.write_message n (staged f) (length (staged f) + tag_len) ≡ some c
  pub size : length c ≡ length (staged f) + tag_len
  pub fits : length (staged f) + tag_len ≤ max_noise_msg

-- The bytes are the packets of the frames, sealed under consecutive nonces.
abbrev pub Coded : Transport → ℕ → List Frame → Bytes → Type 0
Coded t n [] bytes = bytes ≡ []
Coded t n (f ∷ fs) bytes =
    (c : Bytes) × (rest : Bytes) × (bytes ≡ packet c ++ rest)
    × Seals t n f c
    × Coded t (n + 1) fs rest

pub Coded-append :
    (t : Transport) (n m : ℕ) (fs gs : List Frame) (a b : Bytes)
    → m ≡ n + length fs
    → Coded t n fs a
    → Coded t m gs b
    → Coded t n (fs ++ gs) (a ++ b)
Coded-append t n m [] gs a b e va vb =
    subst (λ k. Coded t k gs (a ++ b)) (omega arith)
      (subst (λ l. Coded t m gs (l ++ b)) (sym va) vb)
Coded-append t n m (f ∷ fs) gs a b e (c, rest, split, v, more) vb = (
  c,
  rest ++ b,
  ap (λ l. l ++ b) split ∙ append_assoc (packet c) rest b,
  v,
  Coded-append t (n + 1) m fs gs rest b (omega (arith, e)) more vb,
)

-- Every message that fits can be sealed, under every nonce but the last.
abbrev pub Sealing : Transport → Type 0
Sealing t =
    (n : ℕ) (p : Bytes)
    → n + 1 < 2 ^ 64
    → length p + tag_len ≤ max_noise_msg
    → (c : Bytes) × (t.write_message n p (length p + tag_len) ≡ some c)
      × (length c ≡ length p + tag_len)

-- A frame that fits is encoded as one packet.
pub encode-Coded :
    (e : NoiseEncoder) (f : Frame) (dst : Bytes)
    → Sealing e.transport
    → e.nonce + 1 < 2 ^ 64
    → Fits f
    → (bytes : Bytes) × Coded e.transport e.nonce (f ∷ []) bytes
      × (encode e f dst
          ≡ (record e { nonce = e.nonce + 1; scratch = staged f }, dst ++ bytes, ok tt))
encode-Coded e f dst seals room fits =
    let big : length (staged f) + tag_len ≤ max_noise_msg = omega (arith, length-staged f) in
    let (c, w, l) = seals e.nonce (staged f) room big in
    let same : next_nonce e.nonce ≡ e.nonce + 1 = omega arith in
    (
      packet c,
      (c, [], sym (append-nil (packet c)), record { sealed = w; size = l; fits = big }, refl),
      encode-Fits e f dst c fits w l
          ∙ ap (λ n. (record e { nonce = n; scratch = staged f }, dst ++ packet c, ok tt)) same,
    )
