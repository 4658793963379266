-- ===== src/Mux/Io/Empty.antt =====
-- src/mux.rs: what `MuxStreamIo` reads of an empty frame.
use dsh_proxy.Common.{
  ◌≢◌, sym, List, ℕ, ◌<◌, arith, ◌≡◌, refl, ap, ◌∙◌, [], ◌∷◌, ◌++◌, min, none, some, ok, Poll,
  lookup,
}
use dsh_proxy.Common.Bytes.{Bytes}
use dsh_proxy.Mux.Runtime.{Runtime, Lawful, Received, chunk, ended, waiting}
use dsh_proxy.Mux.Session.{MuxSession}
use dsh_proxy.Mux.Read.{set_inbox, dispatch}
use dsh_proxy.Mux.Read.Effects.{Listening, frame_of, dispatch_delivers}
use dsh_proxy.Wire.{kind_data}
use dsh_proxy.Mux.Io.{MuxStreamIo, hand_over, deliver, read_from, poll_read}
use dsh_proxy.Mux.Io.Credit.{take-nil}

module _ {rt : Runtime} (law : Lawful rt) where
  no_bytes_answer :
      (s : MuxSession rt) (io : MuxStreamIo) (room : ℕ)
      → (deliver s io (chunk []) room).1 ≡ Poll.ready (ok [])
  unfolding deliver hand_over
  no_bytes_answer s io room = ap (λ l. Poll.ready (ok l)) (take-nil (min 0 room))

  -- The chunk of a channel that holds one and does not put the poll off.
  one_chunk :
      (i : rt.Inbox) (b : Bytes) (r : Received)
      → rt.held i ≡ b ∷ []
      → (rt.poll_recv i).1 ≡ r
      → r ≢ waiting
      → r ≡ chunk b
  one_chunk i b (chunk c) h e now =
      let there = law.poll_recv-chunk i _ c (ap (λ k. ((rt.poll_recv i).0, k)) e) in
      ap (λ (l : List Bytes). chunk (front l)) (sym there ∙ h)
    where
      front : List Bytes → Bytes
      front [] = []
      front (x ∷ xs) = x
  one_chunk i b ended h e now =
      let none_held = (law.poll_recv-ended i _ (ap (λ k. ((rt.poll_recv i).0, k)) e)).0 in
      absurd (ground arith)
  one_chunk i b waiting h e now = absurd (now refl)

  -- A DATA frame without a payload, for a stream of the map with an id that is not 0, whose inbox is
  -- empty but has room and whose reader has nothing in hand, makes the next read answer with no bytes,
  -- unless the channel puts its poll off; that is how the end of the stream is told, and the stream is
  -- still in the map.
  pub empty_frame-ends :
      (s : MuxSession rt) (io : MuxStreamIo) (room : ℕ)
      → Listening law s io.tx.id io.tx.at
      → rt.held (s.heap io.tx.at).inbox ≡ []
      → 0 < rt.capacity (s.heap io.tx.at).inbox
      → io.inbox ≡ none
      → let s' = (dispatch s (frame_of io.tx.id kind_data [])).0 in
        (rt.poll_recv (s'.heap io.tx.at).inbox).1 ≢ waiting
        → ((poll_read s' io room).1 ≡ Poll.ready (ok []))
          × (lookup io.tx.id s'.streams ≡ some io.tx.at)
  empty_frame-ends s io room l h c e now = (read, ap (lookup io.tx.id) d.1 ∙ l.found)
    where
      s' : MuxSession rt
      s' = (dispatch s (frame_of io.tx.id kind_data [])).0

      d :
          (rt.held (s'.heap io.tx.at).inbox ≡ rt.held (s.heap io.tx.at).inbox ++ ([] ∷ []))
          × (s'.streams ≡ s.streams)
      d =
          let (_, held, _, _, _, _, beside) =
            dispatch_delivers law s io.tx.id io.tx.at [] l (rw h c) in
          (held, beside.streams)

      got : (rt.poll_recv (s'.heap io.tx.at).inbox).1 ≡ chunk []
      got = one_chunk _ [] _ (d.0 ∙ ap (λ l. l ++ ([] ∷ [])) h) refl now

      read : (poll_read s' io room).1 ≡ Poll.ready (ok [])
      read =
          unfold poll_read in
          ap (λ o. (read_from s' io o room).1) e
          ∙ unfold read_from in
            ap
              (λ r.
                (deliver (set_inbox s' io.tx.at (rt.poll_recv (s'.heap io.tx.at).inbox).0) io r
                  room).1)
              got
            ∙ no_bytes_answer (set_inbox s' io.tx.at (rt.poll_recv (s'.heap io.tx.at).inbox).0) io
                room
