-- ===== src/Frame.antt =====
-- src/mux.rs: the frame that the mux hands to the encoder, and the header that the two ends share
-- (src/wire.rs: streamId(u32) + kind(u8) + len(u16) + rsv(u8)).
use dsh_proxy.Common.{
  ℕ, ◌+◌, ◌^◌, ◌%◌, ◌<◌, ◌≡◌, [], ◌∷◌, ◌++◌, length, get_or, drop, arith, Option, none, some, ltb,
  if◌then◌else◌,
}
use dsh_proxy.Common.Bytes.{Bytes, put_u16, put_u32, u32_from_be_bytes, u32-put_u32}
use dsh_proxy.Wire.{frame_head}

pub record Frame : Type 0 where
  pub id : ℕ
  pub kind : ℕ
  pub payload : Bytes

abbrev pub control : ℕ → ℕ → Frame
control id kind = record { id = id; kind = kind; payload = [] }

-- What the encoder stages: the header, then the payload. The length is cast to 16 bits.
unfoldable pub staged : Frame → Bytes
staged f = put_u32 f.id ++ f.kind ∷ (put_u16 (length f.payload % 2 ^ 16) ++ 0 ∷ f.payload)

-- What the read loop makes of a decrypted message; `none` is a short frame.
unfoldable pub parse : Bytes → Option Frame
parse m =
    if ltb (length m) frame_head
    then none
    else some (record {
      id = u32_from_be_bytes (get_or m 0 0) (get_or m 1 0) (get_or m 2 0) (get_or m 3 0);
      kind = get_or m 4 0;
      payload = drop frame_head m;
    })

pub length-staged : (f : Frame) → length (staged f) ≡ length f.payload + 8
unfolding staged
length-staged f = omega arith

pub parse-staged : (f : Frame) → f.id < 2 ^ 32 → parse (staged f) ≡ some f
unfolding parse staged
parse-staged f h = ground (arith, u32-put_u32 f.id h)
