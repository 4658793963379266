-- ===== src/Link.antt =====
-- src/mux.rs: the writer task of a link, over tokio-util's `FramedWrite` and `FramedRead`, which are
-- parameters, with the codecs of src/noise.rs in them.
pub mod Coded
pub mod Reader
pub mod Writer
pub mod Delivery
pub mod Sessions
mod Polled
mod Tests
use dsh_proxy.Common.{
  ℕ, ◌≡◌, ◌⊎◌, List, [], ◌∷◌, ◌++◌, Bool, true, false, none, some, Result, ok, err, ErrorKind,
}
use dsh_proxy.Common.Bytes.{Bytes}
use dsh_proxy.Frame.{Frame}
use dsh_proxy.Mux.Read.{Event, broken, message}
use dsh_proxy.Noise.{NoiseEncoder, NoiseDecoder, encode, decode}

-- A `FramedWrite`: what its socket took so far, its write buffer and its encoder, and `feed` and `flush`
-- with whether they succeeded.
pub record Sink (W : Type 0) : Type 0 where
  pub taken : W → Bytes
  pub buffer : W → Bytes
  pub encoder : W → NoiseEncoder
  pub feed : W → Frame → W × Bool
  pub flush : W → W × Bool

-- `true` for `Ok`.
abbrev pub is_ok : Result (Unit {0}) → Bool
is_ok (ok _) = true
is_ok (err e) = false

module _ {W : Type 0} (sink : Sink W) where
  -- What the socket took, and behind it what waits in the buffer.
  abbrev pub stream : W → Bytes
  stream w = sink.taken w ++ sink.buffer w

  -- A feed that has not come to its encoder fails.
  abbrev pub IsRefused : W → W → Bool → Type 0
  IsRefused w w' fed = (fed ≡ false) × (stream w' ≡ stream w) × (sink.encoder w' ≡ sink.encoder w)

  -- A feed is what its encoder makes of the frame and of the buffer, of which the socket may have taken a
  -- front before.
  abbrev pub IsEncoded : W → Frame → W → Bool → Type 0
  IsEncoded w f w' fed =
      (ready : Bytes) × (sink.taken w' ++ ready ≡ stream w)
      × (sink.encoder w' ≡ (encode (sink.encoder w) f ready).0)
      × (sink.buffer w' ≡ (encode (sink.encoder w) f ready).1)
      × (fed ≡ is_ok (encode (sink.encoder w) f ready).2)

  -- What is relied on of it: no byte is lost, doubled or swapped, a frame is encoded into the buffer, and
  -- a flush that succeeds has emptied that.
  pub record Faithful : Type 0 where
    pub feeds :
        (w w' : W) (f : Frame) (fed : Bool)
        → sink.feed w f ≡ (w', fed)
        → IsRefused w w' fed ⊎ IsEncoded w f w' fed
    pub flushes :
        (w w' : W) (flushed : Bool)
        → sink.flush w ≡ (w', flushed)
        → (stream w' ≡ stream w)
          × (sink.encoder w' ≡ sink.encoder w)
          × (flushed ≡ true → sink.buffer w' ≡ [])

  -- `batch.drain(..)`: the first frame that cannot be fed ends the task.
  unfoldable pub feed_batch : W → List Frame → W × Bool
  feed_batch w [] = (w, true)
  feed_batch w (f ∷ fs) =
      let (w', fed) = sink.feed w f in elim fed [ false ↦ (w', false) | true ↦ feed_batch w' fs ]

  -- Over what `recv_many` gives, batch after batch; `false` once the task has returned.
  unfoldable pub writer_task : W → List (List Frame) → W × Bool
  writer_task w [] = (w, true)
  writer_task w (batch ∷ batches) =
      let (w1, fed) = feed_batch w batch in
      let (w2, flushed) = sink.flush w1 in
      elim fed [
        | false ↦ (w1, false)
        | true ↦ elim flushed [ false ↦ (w2, false) | true ↦ writer_task w2 batches ]
      ]

-- A `FramedRead`: what its `next` gives while the link's bytes come in, piece after piece, from a decoder
-- and what is in its buffer.
abbrev pub Source : Type 0
Source = NoiseDecoder → Bytes → List Bytes → List Event

-- What is relied on of it: the decoder is asked until it wants more, then the next piece is put behind
-- what it left, and an error is the last that is told.
pub record Driven (next : Source) : Type 0 where
  pub gives :
      (d d' : NoiseDecoder) (buffer rest p : Bytes) (pieces : List Bytes)
      → decode d buffer ≡ (d', rest, ok (some p))
      → next d buffer pieces ≡ message p ∷ next d' rest pieces
  pub waits :
      (d d' : NoiseDecoder) (buffer rest piece : Bytes) (pieces : List Bytes)
      → decode d buffer ≡ (d', rest, ok none)
      → next d buffer (piece ∷ pieces) ≡ next d' (rest ++ piece) pieces
  pub stays :
      (d d' : NoiseDecoder) (buffer rest : Bytes)
      → decode d buffer ≡ (d', rest, ok none)
      → next d buffer [] ≡ []
  pub fails :
      (d d' : NoiseDecoder) (buffer rest : Bytes) (e : ErrorKind) (pieces : List Bytes)
      → decode d buffer ≡ (d', rest, err e)
      → next d buffer pieces ≡ broken e ∷ []
