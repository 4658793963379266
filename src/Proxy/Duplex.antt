-- ===== src/Proxy/Duplex.antt =====
-- src/lib.rs: the two loops of `serve_client` at once, and its end, between the frames of the peer and
-- the calls of other tasks. A round of the downlink is one step, unless it is cut short by the return;
-- the shutdown of the client's half, which ends the downlink, is left out.
pub mod Traffic
pub mod Upward
pub mod Downward
pub mod Across
pub mod Spliced
pub mod Orphan
pub mod Tests
use dsh_proxy.Common.{ℕ, ◌≡◌, ◌⊎◌, List, [], ◌∷◌, ◌++◌, take, Bool, true, false, leb}
use dsh_proxy.Common.Bytes.{Bytes}
use dsh_proxy.Mux.Runtime.{Runtime, Received, chunk, ended, waiting}
use dsh_proxy.Mux.Session.{Half, MuxSession}
use dsh_proxy.Mux.Ops.{grant, close_tx}
use dsh_proxy.Mux.Read.{set_inbox}
use dsh_proxy.Mux.Runs.{Call, call}
use dsh_proxy.Mux.Emits.{Keeps}
use dsh_proxy.Mux.Send.{Progress, done, broken, parked, stuck, send}
use dsh_proxy.Proxy.Client.{Upload, filled, unreadable, Uplink, reading, finished, cut_off, sending}
use dsh_proxy.Proxy.Splice.{
  Writer, Ending, drained, unwritable, unlinked, grant_threshold, add_pending,
}
use dsh_proxy.Proxy.Duplex.Traffic.{elsewhere}

-- The downlink runs, has ended, or was dropped in the middle of a round.
pub data Down : Type 0 where
  running dropped : Down
  over : Ending → Down

-- The uplink task with what the client's socket will give it, the downlink with the client's half that
-- is written and the credit it owes, and whether `serve_client` has returned. The uplink is a task of its
-- own, which goes on when `serve_client` returns; the downlink is dropped then.
pub record Duplex (rt : Runtime) (W : Type 0) : Type 0 where
  pub session : MuxSession rt
  pub uplink : Uplink
  pub uploads : List Upload
  pub writer : W
  pub downlink : Down
  pub owed : ℕ
  pub returned : Bool

-- How the uplink goes on from a call of `send`.
abbrev pub standing : Progress → Uplink
standing done = reading
standing broken = cut_off
standing (parked rest) = sending rest
standing stuck = cut_off

-- Whether `select!` has one of its two to go on with.
abbrev pub IsOver : Uplink → Down → Type 0
IsOver up down = (up ≡ finished) ⊎ (up ≡ cut_off) ⊎ ((e : Ending) × (down ≡ over e))

abbrev pub got : Received → List Bytes
got (chunk b) = b ∷ []
got ended = []
got waiting = []

module _ {rt : Runtime} {W : Type 0} (client : Writer W) (tx : Half) where
  abbrev pub push : Duplex rt W → Bytes → List Upload → Duplex rt W
  push d bytes more =
      let (s, p) = send d.session tx bytes in
      record d { session = s; uplink = standing p; uploads = more }

  -- One round of the uplink, or its send polled again.
  unfoldable pub up_from : Duplex rt W → Uplink → List Upload → Duplex rt W
  up_from d reading [] = d
  up_from d reading (unreadable e ∷ more) = record d { uplink = finished; uploads = more }
  up_from d reading (filled [] ∷ more) = record d { uplink = finished; uploads = more }
  up_from d reading (filled (x ∷ xs) ∷ more) = push d (x ∷ xs) more
  up_from d (sending rest) more = push d rest more
  up_from d finished more = d
  up_from d cut_off more = d

  unfoldable pub up_step : Duplex rt W → Duplex rt W
  up_step d = up_from d d.uplink d.uploads

  -- The client has taken a chunk, and this much is owed.
  unfoldable pub owe : Duplex rt W → ℕ → Duplex rt W
  owe d p =
      let (s, sent) = grant d.session tx p in
      elim (leb grant_threshold p) [
        | false ↦ record d { owed = p }
        | true ↦ elim sent [
          | false ↦ record d { session = s; owed = p; downlink = over unlinked }
          | true ↦ record d { session = s; owed = 0 }
        ]
      ]

  unfoldable pub down_from : Duplex rt W → Received → Duplex rt W
  down_from d waiting = d
  down_from d ended = record d { downlink = over drained }
  down_from d (chunk b) =
      let (w, written) = client.write_all d.writer b in
      elim written [
        | false ↦ record d { writer = w; downlink = over unwritable }
        | true ↦ owe (record d { writer = w }) (add_pending d.owed b)
      ]

  -- One round of the downlink, or its `recv` polled again.
  unfoldable pub down_step : Duplex rt W → Duplex rt W
  down_step d =
      let (i, r) = rt.poll_recv (d.session.heap tx.at).inbox in
      down_from (record d { session = set_inbox d.session tx.at i }) r

  -- The chunk that the next round takes.
  abbrev pub heard : Duplex rt W → List Bytes
  heard d = got (rt.poll_recv (d.session.heap tx.at).inbox).1

  -- `tx.close()`, and the return.
  unfoldable pub give_up : Duplex rt W → Duplex rt W
  give_up d = record d { session = close_tx d.session tx; returned = true }

  -- The state when a round is dropped: its chunk has left the inbox.
  abbrev pub dropped_at : Duplex rt W → rt.Inbox → W → Duplex rt W
  dropped_at d i w = record d {
    session = set_inbox d.session tx.at i;
    writer = w;
    downlink = dropped;
  }

  -- One step of either loop, of `select!` or of anything else on the link, with the chunks that the
  -- downlink took.
  pub data Step : List Bytes → Duplex rt W → Duplex rt W → Type 0 where
    pushes : (d : Duplex rt W) → Step [] d (up_step d)
    pulls :
        (d : Duplex rt W)
        → d.returned ≡ false
        → d.downlink ≡ running
        → Step (heard d) d (down_step d)
    returns :
        (d : Duplex rt W) → d.returned ≡ false → IsOver d.uplink d.downlink → Step [] d (give_up d)
    -- The uplink ends while the downlink is at a chunk, of which the client took a part.
    cuts_short :
        (d : Duplex rt W) (i : rt.Inbox) (b : Bytes) (w : W) (n : ℕ)
        → d.returned ≡ false
        → d.downlink ≡ running
        → (d.uplink ≡ finished) ⊎ (d.uplink ≡ cut_off)
        → rt.poll_recv (d.session.heap tx.at).inbox ≡ (i, chunk b)
        → client.written w ≡ client.written d.writer ++ take n b
        → Step (b ∷ []) d (give_up (dropped_at d i w))
    others :
        (d : Duplex rt W) (c : Call)
        → Keeps (elsewhere tx.id) c
        → Step [] d (record d { session = call d.session c })

  -- What the two loops come to from where they begin, with the chunks that the downlink took so far.
  pub data Reach (d : Duplex rt W) : List Bytes → Duplex rt W → Type 0 where
    begins : Reach d [] d
    later :
        {d' d'' : Duplex rt W} {taken new : List Bytes}
        → Reach d taken d'
        → Step new d' d''
        → Reach d (taken ++ new) d''
