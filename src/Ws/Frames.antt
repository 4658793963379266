-- ===== src/Ws/Frames.antt =====
-- src/ws.rs: the decoder on a client's frames that come in pieces.
use dsh_proxy.Common.{
  ℕ, ◌%◌, ◌≤◌, ◌≡◌, ◌≢◌, ◌⊎◌, inl, inr, refl, sym, ap, ◌∙◌, List, [], ◌∷◌, ◌++◌, length, All,
  append_assoc, append-nil, Result, ErrorKind, ok, err, Bool, true, false, leb, if◌then◌else◌,
  arith,
}
use dsh_proxy.Common.Bytes.{Bytes, IsByte}
use dsh_proxy.Ws.{WsStream, frame, dispatch, decode, max_frame, op_ping, op_pong}
use dsh_proxy.Ws.Shape.{decode-false_bounded}
use dsh_proxy.Ws.Segments.{receive, decode-receive}
use dsh_proxy.Ws.RoundTrip.{client_frame, Mask, Allowed, decode-client_frame}

pub Result-cases :
    (r : Result Bool) → (r ≡ ok true) ⊎ (r ≡ ok false) ⊎ ((e : ErrorKind) × (r ≡ err e))
Result-cases (ok true) = inl refl
Result-cases (ok false) = inr (inl refl)
Result-cases (err e) = inr (inr (e, refl))

append-empty : (xs ys : Bytes) → xs ++ ys ≡ [] → xs ≡ []
append-empty [] ys e = refl
append-empty (x ∷ xs) ys e = absurd (ground arith)

-- The first byte, the mask and the payload of a client's frame.
pub record ClientFrame : Type 0 where
  pub first : ℕ
  pub mask : Bytes
  pub payload : Bytes

-- A data frame, a ping or a pong, as a client may send it.
pub record Sound (f : ClientFrame) : Type 0 where
  pub byte : IsByte f.first
  pub kind : (f.first % 16 ≤ 2) ⊎ (f.first % 16 ≡ op_ping) ⊎ (f.first % 16 ≡ op_pong)
  pub allowed : Allowed f.first f.payload
  pub masked : Mask f.mask
  pub bytes : All IsByte f.payload
  pub fits : length f.payload ≤ max_frame

-- The bytes of the frames, one behind the other.
unfoldable pub wire : List ClientFrame → Bytes
wire [] = []
wire (f ∷ fs) = client_frame f.first f.mask f.payload ++ wire fs

abbrev pub data_of : ClientFrame → Bytes
data_of f = if leb (f.first % 16) 2 then f.payload else []

-- What the client says to the reader: the payloads of its data frames.
unfoldable pub told : List ClientFrame → Bytes
told [] = []
told (f ∷ fs) = data_of f ++ told fs

module _ {S : Type 0} where
  -- What is buffered, and behind it what is still to come, are the frames.
  pub record Carries (s : WsStream S) (more : Bytes) (fs : List ClientFrame) : Type 0 where
    pub whole : s.incoming ++ more ≡ wire fs
    pub speaking : s.closed ≡ false
    pub sound : All Sound fs

  abbrev pub unread : WsStream S → List ClientFrame → Bytes
  unread s fs = s.plain ++ told fs

  dispatch-Sound :
      (s : WsStream S) (f : ClientFrame)
      → Sound f
      → let (s', r) = dispatch s (f.first % 16) f.payload in
        (r ≡ ok true)
        × (s'.incoming ≡ s.incoming)
        × (s'.plain ≡ s.plain ++ data_of f)
        × (s'.closed ≡ s.closed)
  unfolding dispatch frame
  dispatch-Sound s f v = let kind = v.kind in let none = append-nil s.plain in ground arith

  -- A decision of the decoder on a frame that is whole in the buffer takes it off, and what the frame
  -- says is then waiting for the reader.
  decided :
      (s s' : WsStream S) (more : Bytes) (f : ClientFrame) (fs : List ClientFrame) (r : Result Bool)
      → Carries s more (f ∷ fs)
      → decode (receive s more) ≡ (receive s' more, r)
      → (r ≡ ok true) × Carries s' more fs × (unread s' fs ≡ unread s (f ∷ fs))
  unfolding wire told
  decided s s' more f fs r v h =
      let t = record (receive s more) { incoming = wire fs } in
      let whole =
        decode-client_frame (receive s more) f.first f.mask f.payload (wire fs) v.whole
          v.sound.0.byte v.sound.0.masked v.sound.0.bytes v.sound.0.fits v.sound.0.allowed in
      let both : (receive s' more, r) ≡ dispatch t (f.first % 16) f.payload = sym h ∙ whole in
      let (answer, kept, says, open_still) = dispatch-Sound t f v.sound.0 in
      (
        ap (λ (p : WsStream S × Result Bool). p.1) both ∙ answer,
        record {
          whole = ap (λ (p : WsStream S × Result Bool). p.0.incoming) both ∙ kept;
          speaking =
              ap (λ (p : WsStream S × Result Bool). p.0.closed) both ∙ open_still ∙ v.speaking;
          sound = v.sound.1;
        },
        ap (λ l. l ++ told fs) (ap (λ (p : WsStream S × Result Bool). p.0.plain) both ∙ says)
            ∙ append_assoc s.plain (data_of f) (told fs),
      )

  -- With no frame left there is nothing to decode.
  decode-empty : (s : WsStream S) → s.incoming ≡ [] → decode s ≡ (s, ok false)
  unfolding decode
  decode-empty s e = rw e refl

  -- The frames that are left behind those that were taken, after which nothing that the client said is
  -- lost, doubled or swapped.
  pub record Continues (s : WsStream S) (more : Bytes) (fs : List ClientFrame) (s' : WsStream S)
      : Type 0 where
    pub gone : List ClientFrame
    pub left : List ClientFrame
    pub split : gone ++ left ≡ fs
    pub carries : Carries s' more left
    pub same : unread s' left ≡ unread s fs

  stepped :
      (s s' : WsStream S) (more : Bytes) (fs : List ClientFrame) (r : Result Bool)
      → Carries s more fs
      → decode s ≡ (s', r)
      → r ≢ ok false
      → (r ≡ ok true) × Continues s more fs s'
  unfolding wire
  stepped s s' more [] r v h done =
      let nothing : s.incoming ≡ [] = append-empty s.incoming more v.whole in
      absurd (done (ap (λ (p : WsStream S × Result Bool). p.1) (sym h ∙ decode-empty s nothing)))
  stepped s s' more (f ∷ fs) r v h done =
      let (answer, carries, same) =
        decided s s' more f fs r v (decode-receive s s' more r h done) in
      (answer, record { gone = f ∷ []; left = fs; split = refl; carries = carries; same = same })

  -- The decoder waits and has changed nothing, or took a frame.
  pub decode-Continues :
      (s : WsStream S) (more : Bytes) (fs : List ClientFrame)
      → Carries s more fs
      → ((decode s).1 ≡ ok false) × ((decode s).0 ≡ s)
        ⊎ ((decode s).1 ≡ ok true) × Continues s more fs (decode s).0
  decode-Continues s more fs v = elim (Result-cases (decode s).1) [
    | inl q ↦ inr (stepped s (decode s).0 more fs (decode s).1 v refl (λ e. ground arith))
    | inr (inl q) ↦ inl (q, (decode-false_bounded s (decode s).0 (ap (λ r. ((decode s).0, r)) q)).0)
    | inr (inr (k, q)) ↦
        inr (stepped s (decode s).0 more fs (decode s).1 v refl (λ e. ground arith))
  ]

  -- With all that is to come in the buffer, the decoder waits only if no frame is left.
  pub decode_last :
      (s : WsStream S) (fs : List ClientFrame) → Carries s [] fs → (decode s).1 ≡ ok false → fs ≡ []
  unfolding wire
  decode_last s [] v e = refl
  decode_last s (f ∷ fs) v e =
      let same : decode (receive s []) ≡ (receive (decode s).0 [], (decode s).1) =
        rw (append-nil s.incoming, append-nil (decode s).0.incoming) refl in
      let answer = (decided s (decode s).0 [] f fs (decode s).1 v same).0 in absurd (ground arith)
