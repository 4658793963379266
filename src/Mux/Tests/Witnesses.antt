-- ===== src/Mux/Tests/Witnesses.antt =====
-- Concrete runs of src/mux.rs, and its theorems at concrete inputs.
use dsh_proxy.Common.{
  ℕ, ◌+◌, ◌≤◌, ◌≡◌, refl, List, [], ◌∷◌, replicate, none, true, false, arith, max, max, lookup,
  Distinct,
}
use dsh_proxy.Common.Bytes.{Bytes, put_u32}
use dsh_proxy.Mux.Session.{Channel, MuxSession}
use dsh_proxy.Mux.Ops.{
  start, stream_count, try_open_stream, open_reserved, allocate, insert_stream, post, shutdown,
}
use dsh_proxy.Mux.Read.{continues, dispatch}
use dsh_proxy.Mux.Read.Streams.{Apart, Same, dispatch-Same}
use dsh_proxy.Mux.Read.Effects.{frame_of, Listening, dispatch_delivers, dispatch_overflow}
use dsh_proxy.Mux.Read.Limits.{flood, flood_closes, dispatch_window, wrapped_id_deaf}
use dsh_proxy.Mux.Runs.{Call, call, opens, sends, run, run_ceiling, shutdown_frees}
use dsh_proxy.Mux.Ops.Open.{Opened, try_open_stream-Opened}
use dsh_proxy.Mux.Send.{send, send_loop, spend}
use dsh_proxy.Mux.Send.Flow.{Flow, send-Flow}
use dsh_proxy.Mux.Tests.Machine.{Link, machine, lawful}
use dsh_proxy.Wire.{kind_data, kind_close, kind_window}

abbrev live_link : Link
live_link = record { frames = []; alive = true }

abbrev channel_of : List Bytes → ℕ → Channel machine
channel_of items permits = record {
  inbox = record { items = items; cap = 1024; deaf = false; orphan = false };
  credit = record { permits = permits; shut = false };
}

-- Two streams, 1 and 2, at the addresses 0 and 1.
abbrev two : MuxSession machine
two = record {
  out = live_link;
  streams = (2, 1) ∷ (1, 0) ∷ [];
  next_id = 3;
  budget = record { permits = 6; shut = false };
  reader_aborted = false;
  writer_aborted = false;
  on_open = false;
  announced = [];
  heap = λ a. channel_of [] 262144;
  fresh = 2;
}

two-Distinct : Distinct two.streams
unfolding lookup
two-Distinct = (refl, (refl, tt))

two-Apart : Apart two
unfolding lookup
two-Apart = record { known = λ j a h. ground arith; unshared = λ i j a h k. ground arith }

two-Listening : Listening lawful two 1 0
unfolding lookup
two-Listening = record { stream = λ e. omega arith; found = refl; reading = refl }

calls : List Call
calls = opens ∷ sends (record { id = 1; at = 0 }) (7 ∷ 8 ∷ []) ∷ opens ∷ opens ∷ []

-- The third stream is one too many.
calls_full : (run (start {rt = machine} live_link 2) calls).streams ≡ (2, 1) ∷ (1, 0) ∷ []
unfolding run calls start try_open_stream open_reserved allocate insert_stream post lookup send call
    send_loop spend
calls_full = refl

run_ceiling_example :
    let s = run (start {rt = machine} live_link 2) calls in
    (s.budget.permits + stream_count s ≡ max 2 1) × (stream_count s ≤ max 2 1) × Distinct s.streams
run_ceiling_example = run_ceiling lawful live_link 2 calls (omega arith)

shutdown_frees_example :
    let s = shutdown (run (start {rt = machine} live_link 2) calls) in
    (s.streams ≡ []) × (s.budget.permits ≡ max 2 1)
shutdown_frees_example = shutdown_frees lawful live_link 2 calls (omega arith)

dispatch-Same_example : Same two (dispatch two (frame_of 1 kind_close [])).0 2 1
unfolding lookup
dispatch-Same_example =
    dispatch-Same two (frame_of 1 kind_close []) 2 1 two-Apart refl (λ e. omega arith)

send-Flow_example :
    Flow lawful two
      (record { id = 1; at = 0 })
      (replicate 20000 7)
      (send two (record { id = 1; at = 0 }) (replicate 20000 7)).0
      (send two (record { id = 1; at = 0 }) (replicate 20000 7)).1
send-Flow_example = send-Flow lawful two (record { id = 1; at = 0 }) (replicate 20000 7)

dispatch_delivers_example : (dispatch two (frame_of 1 kind_data (5 ∷ []))).1 ≡ continues
dispatch_delivers_example =
    (dispatch_delivers lawful two 1 0 (5 ∷ []) two-Listening (omega arith)).0

-- Stream 1 with a full inbox.
abbrev stuffed : MuxSession machine
stuffed = record two { heap = λ a. channel_of (replicate 1024 (0 ∷ [])) 262144 }

stuffed-Listening : Listening lawful stuffed 1 0
unfolding lookup
stuffed-Listening = record { stream = λ e. omega arith; found = refl; reading = refl }

dispatch_overflow_example : lookup 1 (dispatch stuffed (frame_of 1 kind_data [])).0.streams ≡ none
dispatch_overflow_example =
    (dispatch_overflow lawful stuffed 1 0 [] stuffed-Listening two-Distinct (omega arith)).0

-- 1025 bytes in frames of one byte, in a window of 262144.
flood_closes_example : lookup 1 (flood two 1 (replicate 1025 (0 ∷ []))).streams ≡ none
flood_closes_example =
    flood_closes lawful two 1 0 (replicate 1025 (0 ∷ [])) two-Listening two-Distinct refl refl refl

dispatch_window_example : (dispatch two (frame_of 1 kind_window (put_u32 500))).1 ≡ continues
unfolding lookup
dispatch_window_example =
    ((dispatch_window lawful two 1 0 500 (λ e. omega arith) refl (omega arith)).0 (omega arith)).0

-- A link whose counter of ids has come round.
abbrev wrapped : MuxSession machine
wrapped = record two { next_id = 0 }

wrapped_id_deaf_example :
    (dispatch (try_open_stream wrapped).0 (frame_of 0 kind_data (1 ∷ []))).0.streams
    ≡ (try_open_stream wrapped).0.streams
unfolding try_open_stream open_reserved allocate insert_stream post lookup
wrapped_id_deaf_example =
    ((wrapped_id_deaf lawful wrapped (try_open_stream wrapped).0 (record { id = 0; at = 2 }) refl
        refl).1
      kind_data (1 ∷ [])).0

try_open_stream-Opened_example :
    Opened lawful two (try_open_stream two).0 (record { id = 3; at = 2 })
unfolding try_open_stream open_reserved allocate insert_stream post lookup
try_open_stream-Opened_example =
    try_open_stream-Opened lawful two (try_open_stream two).0 (record { id = 3; at = 2 })
      two-Apart.known refl
