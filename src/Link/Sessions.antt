-- ===== src/Link/Sessions.antt =====
-- src/mux.rs: what one session sends and what the session at the other end of the link does.
use dsh_proxy.Common.{ℕ, ◌+◌, ◌^◌, ◌<◌, ◌≡◌, sym, subst, List, [], ◌++◌, length, All, All-front}
use dsh_proxy.Common.Bytes.{Bytes}
use dsh_proxy.Frame.{Frame}
use dsh_proxy.Mux.Runtime.{Runtime, Lawful}
use dsh_proxy.Mux.Session.{MuxSession}
use dsh_proxy.Mux.Ops.{start}
use dsh_proxy.Mux.Read.{read_loop}
use dsh_proxy.Mux.Runs.{Call, run}
use dsh_proxy.Mux.Emits.{Keeps}
use dsh_proxy.Mux.Sendable.{typed, Sendable, run-Sendable}
use dsh_proxy.Noise.{NoiseDecoder}
use dsh_proxy.Noise.RoundTrip.{Paired}
use dsh_proxy.Link.{Sink, Faithful, stream, Source, Driven, writer_task}
use dsh_proxy.Link.Delivery.{Delivered, link-Delivered}
use mathlib.Core.List.{flatten}

module _ {rt rt' : Runtime} (law : Lawful rt) {W : Type 0} (sink : Sink W)
    (faithful : Faithful sink) (next : Source) (driven : Driven next) where
  -- A session runs from its start, called with ids of 32 bits and with bytes, and its writer task, with
  -- nothing written before, takes a front of the frames that it was given, in any batches. The socket at
  -- the other end gets the bytes that the writer's socket took, in any pieces and maybe not to the end,
  -- and its transport is paired with the writer's, with equal nonces that do not run out. Then the read
  -- loop there acts on a front of those frames as if it had been handed them one by one, and on all of
  -- them if the writer still runs and no byte is lost.
  pub sessions-Delivered :
      (out : rt.Outbox) (max_streams : ℕ) (cs : List Call) (batches : List (List Frame))
      (queued : List Frame) (w : W) (d : NoiseDecoder) (s : MuxSession rt') (pieces : List Bytes)
      (lost : Bytes)
      → rt.accepted out ≡ []
      → All (Keeps typed) cs
      → flatten batches ++ queued ≡ rt.accepted (run (start {rt = rt} out max_streams) cs).out
      → Paired (sink.encoder w).transport d.transport
      → (sink.encoder w).nonce ≡ d.nonce
      → d.nonce + length (flatten batches) < 2 ^ 64
      → stream sink w ≡ []
      → sink.buffer w ≡ []
      → flatten pieces ++ lost ≡ sink.taken (writer_task sink w batches).0
      → Delivered s
          (flatten batches)
          (writer_task sink w batches).1
          lost
          (read_loop s (next d [] pieces))
  sessions-Delivered out max_streams cs batches queued w d s pieces lost e h split pair same room
        fresh idle got =
      link-Delivered sink faithful next driven w d s batches pieces lost pair same room fresh idle
        (All-front Sendable (flatten batches) queued
          (subst (All Sendable) (sym split) (run-Sendable law out max_streams cs e h)))
        got
