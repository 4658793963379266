-- ===== src/Proxy/Client.antt =====
-- src/lib.rs: `serve_client` up to where its two loops run, and the uplink. The session is seen without
-- other tasks between the steps.
pub mod Laws
use dsh_proxy.Common.{
  ℕ, suc, ◌+◌, ◌≤◌, ◌<◌, ◌≡◌, refl, sym, ap, ◌∙◌, List, [], ◌∷◌, ◌++◌, length, drop, take, min,
  Option, none, some, Option-cases, inl, inr, Bool, true, false, arith, ErrorKind,
}
use dsh_proxy.Common.Bytes.{Bytes}
use dsh_proxy.Frame.{Frame, control}
use dsh_proxy.Mux.Runtime.{Runtime, Lawful}
use dsh_proxy.Mux.Session.{Half, MuxSession}
use dsh_proxy.Mux.Ops.{try_open_stream, close_tx}
use dsh_proxy.Mux.Send.{Progress, done, broken, parked, stuck, send}

-- How far a client gets: its key has no bridge, the bridge has no room, its link is dead, the first send
-- waits, or both loops run on a stream.
pub data Splice : Type 0 where
  unrouted no_room link_dead waits : Splice
  runs : Half → Splice

-- What a read of the client's socket gives; `filled []` is its end.
pub data Upload : Type 0 where
  filled : Bytes → Upload
  unreadable : ErrorKind → Upload

-- How the uplink stands: waiting for the client, ended by the client or by the link, or in a send that
-- waits for credit with what is left.
pub data Uplink : Type 0 where
  reading finished cut_off : Uplink
  sending : Bytes → Uplink

module _ {rt : Runtime} where
  -- `tx.send(..).await?` of the preamble.
  unfoldable pub greet : MuxSession rt → Half → Bytes → MuxSession rt × Splice
  greet s tx head =
      let (s', p) = send s tx head in
      (s', elim p [ done ↦ runs tx | broken ↦ link_dead | parked rest ↦ waits | stuck ↦ waits ])

  unfoldable pub open_for : MuxSession rt → Bytes → MuxSession rt × Splice
  open_for s head =
      let (s', o) = try_open_stream s in
      elim o [ none ↦ (s', no_room) | some tx ↦ greet s' tx head ]

  -- The session is the one that the table has for the key in the preamble.
  unfoldable pub serve_client :
      (Bytes → Option (MuxSession rt)) → Bytes → Option (MuxSession rt) × Splice
  serve_client table head = elim (table (take 32 (drop 5 head))) [
    | none ↦ (none, unrouted)
    | some s ↦ let (s', r) = open_for s head in (some s', r)
  ]

  -- With the reads that it has not come to.
  unfoldable pub uplink : MuxSession rt → Half → List Upload → MuxSession rt × Uplink × List Upload
  uplink s tx [] = (s, reading, [])
  uplink s tx (unreadable e ∷ more) = (s, finished, more)
  uplink s tx (filled [] ∷ more) = (s, finished, more)
  uplink s tx (filled (x ∷ xs) ∷ more) =
      let (s', p) = send s tx (x ∷ xs) in
      elim p [
        | done ↦ uplink s' tx more
        | broken ↦ (s', cut_off, more)
        | parked rest ↦ (s', sending rest, more)
        | stuck ↦ (s', cut_off, more)
      ]
