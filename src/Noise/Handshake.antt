-- ===== src/Noise/Handshake.antt =====
-- src/noise.rs: the length-prefixed frames of the handshake, and the Noise_XX responder.
pub mod Laws
use dsh_proxy.Common.{
  ℕ, ◌+◌, ◌^◌, ◌%◌, [], ◌++◌, length, get_or, take, Option, none, some, Result, ok, err,
  invalid_data, ltb, ◌==◌, if◌then◌else◌, Bool,
}
use dsh_proxy.Common.Bytes.{Bytes, put_u16, u16_from_be_bytes}
use dsh_proxy.Noise.{Transport}
use dsh_proxy.Wire.{max_handshake_msg}

-- tokio's `AsyncRead + AsyncWrite` as the handshake uses it, over a socket state of its own.
pub record Stream (S : Type 0) : Type 0 where
  pub read_exact : ℕ → S → Result Bytes × S
  pub write_all : Bytes → S → Result (Unit {0}) × S
  pub flush : S → Result (Unit {0}) × S

-- `snow::HandshakeState`. A message call is given the size of the buffer that it writes to; the
-- new state and what it put there, or `none` for an error.
pub record Handshake (H : Type 0) : Type 0 where
  pub build_responder : Bytes → Bytes → Option H
  pub read_message : H → Bytes → ℕ → Option (Bytes × H)
  pub write_message : H → Bytes → ℕ → Option (Bytes × H)
  pub get_remote_static : H → Option Bytes
  pub into_transport : H → Option Transport

-- A fallible step on the socket.
abbrev pub Io : Type 0 → Type 0 → Type 0
Io S A = S → Result A × S

module _ {S : Type 0} where
  infixl 5 ◌>>=◌ ◌>>◌
  abbrev pub ◌>>=◌ : {A B : Type 0} → Io S A → (A → Io S B) → Io S B
  ◌>>=◌ m f s = let (r, s') = m s in elim r [ ok a ↦ f a s' | err e ↦ (err e, s') ]

  abbrev pub ◌>>◌ : {B : Type 0} → Io S (Unit {0}) → Io S B → Io S B
  m >> k = m >>= λ _. k

  abbrev pub fail : {A : Type 0} → Io S A
  fail s = (err invalid_data, s)

  abbrev pub pure : {A : Type 0} → A → Io S A
  pure a s = (ok a, s)

  -- `opt.map_err(bad)?` and `opt.ok_or_else(|| bad(..))?`.
  abbrev pub or_fail : {A : Type 0} → Option A → Io S A
  or_fail none s = (err invalid_data, s)
  or_fail (some a) s = (ok a, s)

module _ {S : Type 0} (net : Stream S) where
  -- The length is checked before a body of that length is asked for.
  unfoldable pub read_frame : Io S Bytes
  read_frame = do
    len ← net.read_exact 2
    let n = u16_from_be_bytes (get_or len 0 0) (get_or len 1 0)
    if ltb max_handshake_msg n then fail else net.read_exact n

  unfoldable pub write_frame : Bytes → Io S (Unit {0})
  write_frame body =
      if ltb max_handshake_msg (length body)
      then fail
      else (do net.write_all (put_u16 (length body % 2 ^ 16) ++ body); net.flush)

  -- A 32-byte array from a slice.
  abbrev pub try_into_key : Bytes → Option Bytes
  try_into_key remote = if length remote == 32 then some remote else none

  module _ {H : Type 0} (noise : Handshake H) where
    -- The rest of `xx_respond`, from behind the third message on.
    unfoldable pub finish : H → Io S (Bytes × Transport)
    finish h3 = do
      remote ← or_fail (noise.get_remote_static h3)
      key ← or_fail (try_into_key remote)
      transport ← or_fail (noise.into_transport h3)
      pure (key, transport)

    -- From behind the second message on.
    unfoldable pub await_msg3 : H → Io S (Bytes × Transport)
    await_msg3 h2 = do
      msg3 ← read_frame
      (_, h3) ← or_fail (noise.read_message h2 msg3 max_handshake_msg)
      finish h3

    -- From behind the first message on.
    unfoldable pub reply : H → Io S (Bytes × Transport)
    reply h1 = do
      (msg2, h2) ← or_fail (noise.write_message h1 [] max_handshake_msg)
      write_frame msg2
      await_msg3 h2

    -- The peer's proved static key and the transport. The suite's name is a constant, so its parsing
    -- is part of `build_responder`.
    unfoldable pub xx_respond : Bytes → Bytes → Io S (Bytes × Transport)
    xx_respond private_key prologue = do
      h ← or_fail (noise.build_responder private_key prologue)
      msg1 ← read_frame
      (_, h1) ← or_fail (noise.read_message h msg1 max_handshake_msg)
      reply h1
