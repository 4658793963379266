-- ===== src/Mux/Tests/Streams.antt =====
-- src/mux.rs: a stream as a byte stream, and a stream that was closed, at concrete inputs.
use dsh_proxy.Common.{
  ◌≢◌, ◌≡◌, refl, [], ◌∷◌, none, some, true, false, ok, Poll, lookup, Distinct, arith,
}
use dsh_proxy.Mux.Session.{Half, MuxSession}
use dsh_proxy.Mux.Ops.{close_tx}
use dsh_proxy.Mux.Read.{dispatch, eof}
use dsh_proxy.Mux.Read.Streams.{Apart}
use dsh_proxy.Mux.Read.Effects.{frame_of, Listening}
use dsh_proxy.Mux.Runs.{opens, tears_down, reads, run}
use dsh_proxy.Mux.Send.{parked, send}
use dsh_proxy.Mux.Io.{MuxStreamIo, poll_read, poll_flush, drop_io}
use dsh_proxy.Mux.Io.Refines
use dsh_proxy.Mux.Io.Refines.{IoCall, writes, flushes, shuts, io_run, Refines, io_run-Refines}
use dsh_proxy.Mux.Io.Credit.{Read, poll_read-Read}
use dsh_proxy.Mux.Io.Empty.{empty_frame-ends}
use dsh_proxy.Mux.Io.Live.{IsFlushed, flush_twice}
use dsh_proxy.Mux.Io.Drop.{drop_io-frees}
use dsh_proxy.Mux.Stranded.Close.{close_tx-strands}
use dsh_proxy.Mux.Runtime.{waiting}
use dsh_proxy.Mux.Read.{peer_data, settle, set_inbox}
use dsh_proxy.Mux.Tests.Machine.{machine, lawful, steady, lawful_steady}
use dsh_proxy.Wire.{kind_data}

-- A link with two streams whose inboxes are empty, and with some credit each.
abbrev pub pair : MuxSession machine
pair = record {
  out = record { frames = []; alive = true };
  streams = (2, 1) ∷ (1, 0) ∷ [];
  next_id = 3;
  budget = record { permits = 6; shut = false };
  reader_aborted = false;
  writer_aborted = false;
  on_open = false;
  announced = [];
  heap = λ a. record {
    inbox = record { items = []; cap = 1024; deaf = false; orphan = false };
    credit = record { permits = 0; shut = false };
  };
  fresh = 2;
}

pair-Distinct : Distinct pair.streams
unfolding lookup
pair-Distinct = (refl, (refl, tt))

pair-Apart : Apart pair
unfolding lookup
pair-Apart = record { known = λ j a h. ground arith; unshared = λ i j a h k. ground arith }

pair-Listening : Listening lawful pair 1 0
unfolding lookup
pair-Listening = record { stream = λ e. omega arith; found = refl; reading = refl }

abbrev first : Half
first = record { id = 1; at = 0 }

abbrev busy : MuxStreamIo
busy = record {
  tx = first;
  inbox = some (7 ∷ 8 ∷ []);
  out = 3 ∷ 4 ∷ [];
  pending = some (1 ∷ 2 ∷ []);
  credit_due = 131071;
}

abbrev fresh_io : MuxStreamIo
fresh_io = record { tx = first; inbox = none; out = []; pending = none; credit_due = 0 }

io_run-Refines_example :
    Refines
      (pair, fresh_io)
      (io_run (pair, fresh_io) (writes (1 ∷ 2 ∷ []) ∷ flushes ∷ Refines.reads 5 ∷ shuts ∷ []))
io_run-Refines_example =
    io_run-Refines lawful (writes (1 ∷ 2 ∷ []) ∷ flushes ∷ Refines.reads 5 ∷ shuts ∷ [])
      (pair, fresh_io)

poll_read-Read_example : Read pair busy 1 (poll_read pair busy 1)
poll_read-Read_example = poll_read-Read lawful pair busy 1 (omega arith)

chunk_ready :
    (machine.poll_recv ((dispatch pair (frame_of 1 kind_data [])).0.heap 0).inbox).1 ≢ waiting
unfolding dispatch peer_data settle set_inbox lookup
chunk_ready e = absurd (ground arith)

empty_frame-ends_example :
    ((poll_read (dispatch pair (frame_of 1 kind_data [])).0 fresh_io 10).1 ≡ Poll.ready (ok []))
    × (lookup 1 (dispatch pair (frame_of 1 kind_data [])).0.streams ≡ some 0)
empty_frame-ends_example =
    empty_frame-ends lawful pair fresh_io 10 pair-Listening refl (omega arith) refl chunk_ready

drop_io-frees_example :
    (lookup 1 (drop_io pair busy).streams ≡ none)
    × ((drop_io pair busy).budget.permits ≡ 7)
    × (((drop_io pair busy).heap 0).credit.shut ≡ true)
unfolding lookup
drop_io-frees_example = drop_io-frees lawful pair busy pair-Distinct refl

-- A send of two bytes waits; its stream is closed, the link ends and a task opens a stream.
close_tx-strands_example :
    (send (run (close_tx pair first) (reads eof ∷ tears_down ∷ opens ∷ [])) first (1 ∷ 2 ∷ [])).1
    ≡ parked (1 ∷ 2 ∷ [])
unfolding lookup
close_tx-strands_example =
    close_tx-strands pair first 1 (2 ∷ []) (reads eof ∷ tears_down ∷ opens ∷ []) pair-Apart
      pair-Distinct refl refl refl (tt, (tt, (tt, tt)))

-- The same over a link that never dies, with credit.
abbrev pub rich : MuxSession steady
rich = record {
  out = record { frames = []; alive = true };
  streams = (1, 0) ∷ [];
  next_id = 2;
  budget = record { permits = 6; shut = false };
  reader_aborted = false;
  writer_aborted = false;
  on_open = false;
  announced = [];
  heap = λ a. record {
    inbox = record { items = []; cap = 1024; deaf = false; orphan = false };
    credit = record { permits = 100; shut = false };
  };
  fresh = 1;
}

flush_twice_example : let a = poll_flush rich busy in IsFlushed (poll_flush (a.0).0 (a.0).1)
flush_twice_example = flush_twice lawful_steady (λ o f. refl) rich busy refl (omega arith)
