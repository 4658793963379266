-- ===== src/Ws/Poll/Carried.antt =====
-- src/ws.rs: what a reader of the byte stream gets of a client's frames that come in pieces.
use dsh_proxy.Common.{
  Poll, pending, ready, ℕ, zero, suc, ◌≡◌, ◌≤◌, ◌≢◌, ◌⊎◌, inl, inr, refl, sym, ap, subst, ◌∙◌, List,
  [], ◌∷◌, ◌++◌, length, take, drop, min, Result, ok, err, Bool, true, false, ◌==◌, Bool-cases, All,
  append_assoc, arith, take-append-drop, length-take,
}
use dsh_proxy.Common.Bytes.{Bytes}
use dsh_proxy.Ws.{WsStream, decode}
use dsh_proxy.Ws.Shape.{decode-true_progress}
use dsh_proxy.Ws.Segments.{receive}
use dsh_proxy.Ws.Frames.{
  ClientFrame, told, Carries, unread, Continues, decode-Continues, decode_last,
}
use dsh_proxy.Ws.Poll.{Socket, drain}
use dsh_proxy.Ws.Poll.Read.{
  Arrival, filled, broken, Idle, take_frames, hand_over, take_frames-Idle, poll_read,
}
use dsh_proxy.Ws.Poll.Written.{Honest, drain-Drained}

-- Bytes that arrive, at least one.
abbrev pub Filled : Arrival → Type 0
Filled (broken e) = ⊥
Filled (filled []) = ⊥
Filled (filled (x ∷ xs)) = Unit {0}

unfoldable pub arrived : List Arrival → Bytes
arrived [] = []
arrived (filled b ∷ more) = b ++ arrived more
arrived (broken e ∷ more) = arrived more

module _ {S : Type 0} (socket : Socket S) (honest : Honest socket) where
  -- What the rounds that need no byte of the socket leave.
  record Taken (s : WsStream S) (more : Bytes) (fs : List ClientFrame)
      (p : WsStream S × Result Bool) : Type 0 where
    pub continues : Continues s more fs p.0
    pub answer : ((p.1 ≡ ok true) × (length p.0.plain ≢ 0)) ⊎ (p.1 ≡ ok false)

  drained :
      (s t : WsStream S) (more : Bytes) (fs : List ClientFrame)
      → Continues s more fs t
      → Continues s more fs (drain socket t).0
  drained s t more fs c =
      let (buffered, plain, closed) = (drain-Drained socket honest t).input in
      record {
        gone = c.gone;
        left = c.left;
        split = c.split;
        carries = record {
          whole = ap (λ l. l ++ more) buffered ∙ c.carries.whole;
          speaking = closed ∙ c.carries.speaking;
          sound = c.carries.sound;
        };
        same = ap (λ l. l ++ told c.left) plain ∙ c.same;
      }

  after :
      (s t : WsStream S) (more : Bytes) (fs : List ClientFrame) (c : Continues s more fs t)
      {p : WsStream S × Result Bool}
      → Taken t more c.left p
      → Taken s more fs p
  after s t more fs c v = record {
    continues = record {
      gone = c.gone ++ v.continues.gone;
      left = v.continues.left;
      split =
          append_assoc c.gone v.continues.gone v.continues.left
          ∙ ap (λ l. c.gone ++ l) v.continues.split
          ∙ c.split;
      carries = v.continues.carries;
      same = v.continues.same ∙ c.same;
    };
    answer = v.answer;
  }

  take_frames-Taken :
      (fuel : ℕ) (s : WsStream S) (more : Bytes) (fs : List ClientFrame)
      → length s.incoming ≤ fuel
      → Carries s more fs
      → Taken s more fs (take_frames socket fuel s)
  unfolding take_frames
  take_frames-Taken zero s more fs h v = record {
    continues = record { gone = []; left = fs; split = refl; carries = v; same = refl };
    answer = ground arith;
  }
  take_frames-Taken (suc fuel) s more fs h v = elim (Bool-cases (length s.plain == 0)) [
    | inr b ↦
        rw (b, take_frames)
          (record {
            continues = record { gone = []; left = fs; split = refl; carries = v; same = refl };
            answer = inl (refl, ground arith);
          })
    | inl b ↦ elim (decode-Continues s more fs v) [
      | inl (q, same) ↦
          rw (b, q, same, take_frames)
            (record {
              continues = record { gone = []; left = fs; split = refl; carries = v; same = refl };
              answer = inr refl;
            })
      | inr (q, c) ↦
          let t = (drain socket (decode s).0).0 in
          let d = drained s (decode s).0 more fs c in
          let kept = ap length (drain-Drained socket honest (decode s).0).input.0 in
          let shrinks = (decode-true_progress s (decode s).0 (ap (λ r. ((decode s).0, r)) q)).0 in
          rw (b, q, take_frames)
            (after s t more fs d
              (take_frames-Taken fuel t more d.left (omega (arith, h, shrinks, kept)) d.carries))
    ]
  ]

  -- An answer gives the next bytes, some if there is room, and the reader waits only where all was read.
  abbrev pub Gave : Bytes → ℕ → Bytes → List Arrival → Poll Bytes → Type 0
  Gave said room rest more pending = (said ≡ []) × (more ≡ [])
  Gave said room rest more (ready (err e)) = ⊥
  Gave said room rest more (ready (ok b)) =
      (b ++ rest ≡ said) × (length b ≤ room) × (room ≢ 0 → length b ≢ 0)

  -- What is buffered, and behind it what the socket has still, are the last of the frames; the next read
  -- may start from there.
  pub record Delivered (s : WsStream S) (fs : List ClientFrame) (room : ℕ)
      (r : (WsStream S × Poll Bytes) × List Arrival) : Type 0 where
    pub gone : List ClientFrame
    pub left : List ClientFrame
    pub split : gone ++ left ≡ fs
    pub filled : All Filled r.1
    pub carries : Carries r.0.0 (arrived r.1) left
    pub gave : Gave (unread s fs) room (unread r.0.0 left) r.1 r.0.1

  handed :
      (s t : WsStream S) (fs : List ClientFrame) (room : ℕ) (more : List Arrival)
      → All Filled more
      → Continues s (arrived more) fs t
      → length t.plain ≢ 0
      → Delivered s fs room (hand_over socket t room, more)
  handed s t fs room more w c some_plain = record {
    gone = c.gone;
    left = c.left;
    split = c.split;
    filled = w;
    carries = record {
      whole = c.carries.whole;
      speaking = c.carries.speaking;
      sound = c.carries.sound;
    };
    gave =
        let n = min (length t.plain) room in
        let size = length-take n t.plain in
        (
          sym (append_assoc (take n t.plain) (drop n t.plain) (told c.left))
              ∙ ap (λ l. l ++ told c.left) (take-append-drop n t.plain)
              ∙ c.same,
          omega (arith, size),
          λ h e. omega (arith, size, h, e, some_plain),
        );
  }

  -- With nothing left to arrive.
  waited :
      (s t : WsStream S) (fs : List ClientFrame) (room : ℕ)
      → Continues s [] fs t
      → Idle t
      → Delivered s fs room ((t, pending), [])
  unfolding arrived told
  waited s t fs room c v = record {
    gone = c.gone;
    left = c.left;
    split = c.split;
    filled = tt;
    carries = c.carries;
    gave =
        let over =
          decode_last t c.left c.carries (ap (λ (p : WsStream S × Result Bool). p.1) v.no_frame) in
        (sym c.same ∙ rw (over, v.nothing, told) refl, refl);
  }

  onward :
      (s t : WsStream S) (fs left gone : List ClientFrame) (room : ℕ)
      {r : (WsStream S × Poll Bytes) × List Arrival}
      → gone ++ left ≡ fs
      → unread t left ≡ unread s fs
      → Delivered t left room r
      → Delivered s fs room r
  onward s t fs left gone room {r} e same v = record {
    gone = gone ++ v.gone;
    left = v.left;
    split = append_assoc gone v.gone v.left ∙ ap (λ l. gone ++ l) v.split ∙ e;
    filled = v.filled;
    carries = v.carries;
    gave = subst (λ said. Gave said room (unread r.0.0 v.left) r.1 r.0.1) same v.gave;
  }

  arriving :
      (t : WsStream S) (b more : Bytes) (fs : List ClientFrame)
      → Carries t (b ++ more) fs
      → Carries (receive t b) more fs
  arriving t b more fs v = record {
    whole = append_assoc t.incoming b more ∙ v.whole;
    speaking = v.speaking;
    sound = v.sound;
  }

  -- While the client has not closed, and what is buffered and what arrives, in pieces of one byte or
  -- more, are whole data frames, pings and pongs that a client may send, a read over an honest socket
  -- does not fail: it gives the next bytes of the data frames' payloads, in order and once each, as many
  -- as there is room for at most and one at least if there is room, or it waits, and then all of them
  -- have been read. What it leaves in the buffer, and behind it on the socket, are the last of these
  -- frames, with what is still to be read of them.
  pub poll_read-Delivered :
      (s : WsStream S) (fs : List ClientFrame) (room : ℕ) (arrivals : List Arrival)
      → All Filled arrivals
      → Carries s (arrived arrivals) fs
      → Delivered s fs room (poll_read socket s room arrivals)
  unfolding poll_read arrived
  poll_read-Delivered s fs room [] w v =
      let k = take_frames-Taken (length s.incoming) s [] fs (omega arith) v in
      let t = (take_frames socket (length s.incoming) s).0 in
      elim k.answer [
        | inl (q, some_plain) ↦ rw (q, poll_read) (handed s t fs room [] tt k.continues some_plain)
        | inr q ↦
            let open_still = k.continues.carries.speaking in
            rw (q, open_still, poll_read)
              (waited s t fs room k.continues
                (take_frames-Idle socket honest (length s.incoming) s (omega arith) q))
      ]
  poll_read-Delivered s fs room (broken e ∷ more) w v = absurd w.0
  poll_read-Delivered s fs room (filled [] ∷ more) w v = absurd w.0
  poll_read-Delivered s fs room (filled (x ∷ xs) ∷ more) w v =
      let k =
        take_frames-Taken (length s.incoming) s (arrived (filled (x ∷ xs) ∷ more)) fs (omega arith)
          v in
      let t = (take_frames socket (length s.incoming) s).0 in
      elim k.answer [
        | inl (q, some_plain) ↦
            rw (q, poll_read) (handed s t fs room (filled (x ∷ xs) ∷ more) w k.continues some_plain)
        | inr q ↦
            let open_still = k.continues.carries.speaking in
            rw (q, open_still, poll_read)
              (onward s (receive t (x ∷ xs)) fs k.continues.left k.continues.gone room
                k.continues.split k.continues.same
                (poll_read-Delivered (receive t (x ∷ xs)) k.continues.left room more w.1
                  (arriving t (x ∷ xs) (arrived more) k.continues.left k.continues.carries)))
      ]
