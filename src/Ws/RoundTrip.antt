-- ===== src/Ws/RoundTrip.antt =====
-- src/ws.rs against the frames of RFC 6455: what a client sends is what the reader gets, and a
-- server frame announces its payload. The client's half is that of tests/common/wsio.rs.
use dsh_proxy.Common.{
  ℕ, ◌+◌, ◌*◌, ◌%◌, ◌/◌, ◌^◌, ◌≤◌, ◌<◌, ◌≡◌, ◌⊎◌, inl, inr, refl, sym, ap, ◌∙◌, [], ◌∷◌, ◌++◌,
  length, get_or, drop, All, some, ltb, leb, if◌then◌else◌, ok, true, bit_and, arith, length-append,
  append_assoc, get_or-append_at, All-get_or, take-append_self, drop-append_self, Bool-cases,
}
use dsh_proxy.Common.Bytes.{
  Bytes, IsByte, put_u16, put_u64, bit_and_flag, bit_and_seven, bit_and_four, bit_and_eight,
  bit_or_flag, bit_xor_twice,
}
use dsh_proxy.Ws.{
  WsStream, length_field, server_frame, unmask, mask_at, read_length, dispatch, decode_body,
  decode_length, decode, max_frame, max_control,
}
use dsh_proxy.Ws.Shape.{length-unmask}

-- The length of a client's frame, with the mask bit set on its first byte.
unfoldable pub masked_length : ℕ → Bytes
masked_length n =
    if ltb n 126 then (n + 128) ∷ [] else if leb n 65535 then 254 ∷ put_u16 n else 255 ∷ put_u64 n

-- A client's frame: the first byte, the length, the mask, and the payload masked.
unfoldable pub client_frame : ℕ → Bytes → Bytes → Bytes
client_frame first mask payload =
    (first ∷ masked_length (length payload)) ++ (mask ++ unmask mask 0 payload)

pub unmask-unmask :
    (mask : Bytes) (i : ℕ) (xs : Bytes)
    → All IsByte mask
    → All IsByte xs
    → unmask mask i (unmask mask i xs) ≡ xs
unfolding unmask
unmask-unmask mask i [] hm hx = refl
unmask-unmask mask i (x ∷ xs) hm hx = ground (
  arith,
  bit_xor_twice x (get_or mask (i % 4) 0) hx.0 (All-get_or IsByte mask (i % 4) 0 hm (omega arith)),
  unmask-unmask mask (i + 1) xs hm hx.1,
)

-- A mask stands behind `pre`.
abbrev pub Mask : Bytes → Type 0
Mask mask = (length mask ≡ 4) × All IsByte mask

mask_at-append :
    (pre mask rest : Bytes) (at : ℕ)
    → at ≡ length pre
    → length mask ≡ 4
    → mask_at (pre ++ (mask ++ rest)) at ≡ mask
unfolding mask_at
mask_at-append pre (a ∷ b ∷ c ∷ d ∷ []) rest at h l = ground (
  arith,
  get_or-append_at pre (a ∷ b ∷ c ∷ d ∷ rest) 0 at 0 (omega arith),
  get_or-append_at pre (a ∷ b ∷ c ∷ d ∷ rest) 1 (at + 1) 0 (omega arith),
  get_or-append_at pre (a ∷ b ∷ c ∷ d ∷ rest) 2 (at + 2) 0 (omega arith),
  get_or-append_at pre (a ∷ b ∷ c ∷ d ∷ rest) 3 (at + 3) 0 (omega arith),
)
mask_at-append pre [] rest at h l = absurd (omega arith)
mask_at-append pre (a ∷ []) rest at h l = absurd (omega arith)
mask_at-append pre (a ∷ b ∷ []) rest at h l = absurd (omega arith)
mask_at-append pre (a ∷ b ∷ c ∷ []) rest at h l = absurd (omega arith)
mask_at-append pre (a ∷ b ∷ c ∷ d ∷ e ∷ more) rest at h l = absurd (omega arith)

module _ {S : Type 0} where
  body-whole :
      (s : WsStream S) (opcode : ℕ) (pre mask body rest : Bytes) (at size : ℕ)
      → s.incoming ≡ pre ++ (mask ++ (body ++ rest))
      → at ≡ length pre
      → size ≡ length body
      → length mask ≡ 4
      → size ≤ max_frame
      → decode_body s opcode true size at
        ≡ dispatch (record s { incoming = rest }) opcode (unmask mask 0 body)
  unfolding decode_body
  body-whole s opcode pre mask body rest at size e ha hs hm fits = ground (
    arith,
    lengths,
    behind,
    masks,
    take-append_self body rest size hs,
    drop-append_self body rest size hs,
  )
    where
      masks : mask_at s.incoming at ≡ mask
      masks = rw e (mask_at-append pre mask (body ++ rest) at ha hm)

      behind : drop (at + 4) s.incoming ≡ body ++ rest
      behind =
          rw (e, ← append_assoc pre mask (body ++ rest))
            (drop-append_self (pre ++ mask) (body ++ rest) (at + 4)
              (omega (arith, length-append pre mask)))

      lengths : at + 4 + size ≤ length s.incoming
      lengths = rw e (
          omega (
            arith,
            length-append pre (mask ++ (body ++ rest)),
            length-append mask (body ++ rest),
            length-append body rest,
          ))

-- The header that a client writes is the header that the decoder reads: the mask bit is set, the
-- short length is the length itself where it fits, and the payload's length is found.
header-read :
    (first n : ℕ) (more : Bytes)
    → n ≤ max_frame
    → let b = (first ∷ masked_length n) ++ more in
      (read_length b (bit_and (get_or b 1 0) 0x7f) ≡ some (n, length (first ∷ masked_length n)))
      × (bit_and (get_or b 1 0) 0x80 ≡ 128)
      × (n ≤ max_control → bit_and (get_or b 1 0) 0x7f ≡ n)
      × (2 ≤ length b)
unfolding masked_length read_length
header-read first n more fits = elim (Bool-cases (ltb n 126)) [
  | inl small ↦ ground (arith, bit_and_seven (n + 128), bit_and_flag (n + 128))
  | inr large ↦ elim (Bool-cases (leb n 65535)) [
    | inl middle ↦ ground arith
    | inr huge ↦ ground arith
  ]
]

-- The first byte of a frame that the control rule lets through: its opcode has no control bit, or it
-- is final and its payload is short.
abbrev pub Allowed : ℕ → Bytes → Type 0
Allowed first payload = (first / 8 % 2 ≡ 0) ⊎ ((128 ≤ first) × (length payload ≤ max_control))

control-bit : (first : ℕ) → IsByte first → bit_and (bit_and first 0x0f) 0x08 ≡ first / 8 % 2 * 8
control-bit first h =
    rw (bit_and_four first h) (bit_and_eight (first % 16) (omega arith) ∙ omega arith)

module _ {S : Type 0} where
  -- A whole client frame, of any opcode and with whatever bytes behind it, is taken off the buffer and
  -- acted on with its payload unmasked.
  pub decode-client_frame :
      (s : WsStream S) (first : ℕ) (mask payload rest : Bytes)
      → s.incoming ≡ client_frame first mask payload ++ rest
      → IsByte first
      → Mask mask
      → All IsByte payload
      → length payload ≤ max_frame
      → Allowed first payload
      → decode s ≡ dispatch (record s { incoming = rest }) (first % 16) payload
  unfolding decode client_frame decode_length
  decode-client_frame s first mask payload rest e hf hm hp fits allowed =
      ground (arith, front, found, bit_and_flag first hf, control-bit first hf, whole)
    where
      body : Bytes
      body = unmask mask 0 payload

      pre : Bytes
      pre = first ∷ masked_length (length payload)

      split : s.incoming ≡ pre ++ (mask ++ (body ++ rest))
      split =
          e
          ∙ ap (λ t. first ∷ t) (append_assoc (masked_length (length payload)) (mask ++ body) rest)
          ∙ rw (append_assoc mask body rest) refl

      whole :
          decode_body s (bit_and first 0x0f) true (length payload) (length pre)
          ≡ dispatch (record s { incoming = rest }) (first % 16) payload
      whole =
          body-whole s (bit_and first 0x0f) pre mask body rest (length pre) (length payload) split
            refl (sym (length-unmask mask 0 payload)) hm.0 fits
          ∙ rw (bit_and_four first hf, unmask-unmask mask 0 payload hm.1 hp) refl

      front : get_or s.incoming 0 0 ≡ first
      front = rw split refl

      found :
          (read_length s.incoming (bit_and (get_or s.incoming 1 0) 0x7f)
            ≡ some (length payload, length pre))
          × (bit_and (get_or s.incoming 1 0) 0x80 ≡ 128)
          × (length payload ≤ max_control → bit_and (get_or s.incoming 1 0) 0x7f ≡ length payload)
          × (2 ≤ length s.incoming)
      found = rw split (header-read first (length payload) (mask ++ (body ++ rest)) fits)

  -- The bytes of a data frame, text, binary or continued, reach the reader as the client had them
  -- before masking, behind what is waiting already; whether the frame is final makes no difference.
  pub decode_data :
      (s : WsStream S) (first : ℕ) (mask payload rest : Bytes)
      → s.incoming ≡ client_frame first mask payload ++ rest
      → IsByte first
      → first % 16 ≤ 2
      → Mask mask
      → All IsByte payload
      → length payload ≤ max_frame
      → decode s ≡ (record s { incoming = rest; plain = s.plain ++ payload }, ok true)
  unfolding dispatch
  decode_data s first mask payload rest e hf low hm hp fits =
      decode-client_frame s first mask payload rest e hf hm hp fits (inl (omega arith))
      ∙ ground arith

-- A server frame is unmasked and announces its payload's length: a reader of the header finds the
-- payload behind it.
pub server_frame-read :
    (opcode : ℕ) (payload : Bytes)
    → opcode < 16
    → length payload < 2 ^ 63
    → let b = server_frame opcode payload in
      (at : ℕ) × (get_or b 0 0 ≡ opcode + 128)
      × (get_or b 1 0 < 128)
      × (read_length b (get_or b 1 0) ≡ some (length payload, at))
      × (drop at b ≡ payload)
unfolding server_frame length_field read_length
server_frame-read opcode payload op small = elim (Bool-cases (ltb (length payload) 126)) [
  | inl short ↦ (2, ground (arith, bit_or_flag opcode), ground arith, ground arith, ground arith)
  | inr long ↦ elim (Bool-cases (leb (length payload) 65535)) [
    | inl middle ↦ (4, ground (arith, bit_or_flag opcode), ground arith, ground arith, ground arith)
    | inr huge ↦ (10, ground (arith, bit_or_flag opcode), ground arith, ground arith, ground arith)
  ]
]
