-- ===== src/Mux/Read/Limits.antt =====
-- src/mux.rs: what a link does at the limits of a stream's inbox, of its credit and of the stream ids.
use dsh_proxy.Common.{
  ℕ, zero, suc, ◌+◌, ◌%◌, ◌^◌, ◌≤◌, ◌<◌, ◌≡◌, ◌≢◌, refl, sym, ap, ◌∙◌, List, [], ◌∷◌, length, none,
  some, arith, length-append, subst, lookup, Distinct, update_self,
}
use dsh_proxy.Common.Bytes.{Bytes, put_u32, u32-put_u32}
use dsh_proxy.Mux.Runtime.{Runtime, Lawful, max_permits}
use dsh_proxy.Mux.Session.{Half, Channel, MuxSession, inbox_frames}
use dsh_proxy.Mux.Ops.{post, insert_stream, drop_state, allocate, open_reserved, try_open_stream}
use dsh_proxy.Mux.Read.{continues, panics, granted, peer_window, dispatch}
use dsh_proxy.Mux.Read.Effects.{
  frame_of, Listening, dispatch_delivers, dispatch_overflow, dispatch_keepalive, dispatch-window,
}
use dsh_proxy.Wire.{kind_data, kind_window}

module _ {rt : Runtime} where
  -- DATA frames of one stream, one after the other, while its reader takes none.
  unfoldable pub flood : MuxSession rt → ℕ → List Bytes → MuxSession rt
  flood s id [] = s
  flood s id (p ∷ ps) = flood (dispatch s (frame_of id kind_data p)).0 id ps

module _ {rt : Runtime} (law : Lawful rt) where
  flood_room :
      (room : ℕ) (s : MuxSession rt) (id at : ℕ) (ps : List Bytes)
      → Listening law s id at
      → Distinct s.streams
      → rt.capacity (s.heap at).inbox ≡ length (rt.held (s.heap at).inbox) + room
      → length ps ≡ suc room
      → lookup id (flood s id ps).streams ≡ none
  unfolding flood
  flood_room room s id at [] l d cap n = absurd (omega arith)
  flood_room zero s id at (p ∷ []) l d cap n = (dispatch_overflow law s id at p l d (omega arith)).0
  flood_room zero s id at (p ∷ q ∷ ps) l d cap n = absurd (omega arith)
  flood_room (suc room) s id at (p ∷ ps) l d cap n =
      let (_, held, _, capacity, reading, _, beside) =
        dispatch_delivers law s id at p l (omega arith) in
      flood_room room (dispatch s (frame_of id kind_data p)).0 id at ps
        (record {
          stream = l.stream;
          found = ap (lookup id) beside.streams ∙ l.found;
          reading = reading;
        })
        (subst Distinct (sym beside.streams) d)
        (omega
          (arith, capacity, ap length held, length-append (rt.held (s.heap at).inbox) (p ∷ [])))
        (omega arith)

  -- A stream whose inbox is empty is closed by its 1025th unread DATA frame, however few bytes the
  -- frames carry: a peer can lose the stream far within the window that it was granted.
  pub flood_closes :
      (s : MuxSession rt) (id at : ℕ) (ps : List Bytes)
      → Listening law s id at
      → Distinct s.streams
      → rt.held (s.heap at).inbox ≡ []
      → rt.capacity (s.heap at).inbox ≡ inbox_frames
      → length ps ≡ suc inbox_frames
      → lookup id (flood s id ps).streams ≡ none
  flood_closes s id at ps l d empty cap n =
      flood_room inbox_frames s id at ps l d (omega (arith, ap length empty)) n

  -- A WINDOW frame adds exactly its grant to the stream's credit; a grant that the semaphore cannot
  -- hold panics.
  pub dispatch_window :
      (s : MuxSession rt) (id at n : ℕ)
      → id ≢ 0
      → lookup id s.streams ≡ some at
      → n < 2 ^ 32
      → let r = dispatch s (frame_of id kind_window (put_u32 n)) in
        (rt.available (s.heap at).credit + n ≤ max_permits
          → (r.1 ≡ continues)
            × (rt.available (r.0.heap at).credit ≡ rt.available (s.heap at).credit + n)
            × (r.0.streams ≡ s.streams)
            × ((r.0.heap at).inbox ≡ (s.heap at).inbox))
        × (max_permits < rt.available (s.heap at).credit + n → r.1 ≡ panics)
  unfolding peer_window
  dispatch_window s id at n ne e small =
      rw (dispatch-window s id (put_u32 n) ne refl) (fits, overflows)
    where
      spelled : granted (put_u32 n) ≡ n
      spelled = u32-put_u32 n small

      sem : rt.Sem
      sem = (s.heap at).credit

      fits :
          rt.available sem + n ≤ max_permits
          → ((peer_window s id (put_u32 n)).1 ≡ continues)
            × (rt.available ((peer_window s id (put_u32 n)).0.heap at).credit
                ≡ rt.available sem + n)
            × ((peer_window s id (put_u32 n)).0.streams ≡ s.streams)
            × (((peer_window s id (put_u32 n)).0.heap at).inbox ≡ (s.heap at).inbox)
      fits h =
          let (c, p) = law.add-fits n sem h in
          let put = update_self s.heap at (record { inbox = (s.heap at).inbox; credit = c }) in
          rw (e, peer_window)
            (rw spelled (
              rw p (
                refl,
                ap (λ (c : Channel rt). rt.available c.credit) put ∙ (law.add-some n sem c p).0,
                refl,
                ap (λ (c : Channel rt). c.inbox) put,
              )))

      overflows : max_permits < rt.available sem + n → (peer_window s id (put_u32 n)).1 ≡ panics
      overflows h = rw (e, peer_window) (rw spelled (rw (law.add-overflow n sem h) refl))

  -- Once the counter of stream ids has wrapped to 0, the next stream opened is given the keepalive's
  -- id, and no frame that the peer can send for it, of any kind or content, reaches it.
  pub wrapped_id_deaf :
      (s s' : MuxSession rt) (tx : Half)
      → s.next_id ≡ 0
      → try_open_stream s ≡ (s', some tx)
      → (tx.id ≡ 0)
        × ((kind : ℕ) (payload : Bytes)
            → ((dispatch s' (frame_of tx.id kind payload)).0.streams ≡ s'.streams)
              × ((dispatch s' (frame_of tx.id kind payload)).0.heap ≡ s'.heap))
  unfolding try_open_stream open_reserved
  wrapped_id_deaf s s' tx zeroed opened =
      (id, λ kind payload. let k = dispatch_keepalive law s' kind payload in rw id (k.0, k.1))
    where
      id : tx.id ≡ 0
      id = ground arith

  -- The counter counts every stream opened, modulo 2^32, starting from 1.
  pub next_id-opened :
      (s s' : MuxSession rt) (tx : Half)
      → try_open_stream s ≡ (s', some tx)
      → (tx.id ≡ s.next_id) × (s'.next_id ≡ (s.next_id + 1) % 2 ^ 32)
  unfolding try_open_stream open_reserved post insert_stream drop_state allocate
  next_id-opened s s' tx opened = ground arith
