-- ===== src/Proxy/Duplex/Tests.antt =====
-- src/lib.rs: a splice that takes a chunk between two reads of its client, and returns at the client's end.
use dsh_proxy.Common.{ℕ, ◌≡◌, Bool, take, refl, [], ◌∷◌, ◌++◌, false, true, inl, arith}
use dsh_proxy.Common.Bytes.{Bytes}
use dsh_proxy.Frame.{control}
use dsh_proxy.Mux.Session.{Half, MuxSession}
use dsh_proxy.Mux.Ops.{start, post, grant}
use dsh_proxy.Mux.Read.{set_inbox}
use dsh_proxy.Mux.Send.{data_frame, send, send_loop, spend}
use dsh_proxy.Mux.Tests.Streams.{rich}
use dsh_proxy.Mux.Tests.Machine.{Link, machine, lawful, steady, lawful_steady}
use dsh_proxy.Proxy.Client.{filled, reading}
use dsh_proxy.Proxy.Splice.{Writer, unwritable}
use dsh_proxy.Proxy.Duplex.{
  Duplex, running, over, up_step, up_from, down_step, down_from, owe, give_up, pushes, pulls,
  returns, Reach, begins, later,
}
use dsh_proxy.Proxy.Duplex.Spliced.{Spliced, Reach-Spliced}
use dsh_proxy.Proxy.Duplex.Orphan.{give_up-pushes}
use dsh_proxy.Wire.{window, kind_close}

abbrev write : Bytes → Bytes → Bytes × Bool
write w b = (w ++ b, true)

write_whole : (w w' b : Bytes) → write w b ≡ (w', true) → w' ≡ w ++ b
write_whole w w' b e = ground arith

write_part : (w w' b : Bytes) → write w b ≡ (w', false) → (n : ℕ) × (w' ≡ w ++ take n b)
write_part w w' b e = absurd (ground arith)

-- A client that takes whatever it is given.
abbrev eager : Writer Bytes
eager = record { write_all = write; written = λ w. w; complete = write_whole; partial = write_part }

abbrev tx : Half
tx = record { id = 1; at = 0 }

abbrev live_link : Link
live_link = record { frames = []; alive = true }

-- The stream with a chunk in its inbox.
abbrev one_chunk : MuxSession machine
one_chunk = record (start live_link 4) {
  heap = λ a. record {
    inbox = record { items = (7 ∷ 8 ∷ []) ∷ []; cap = 4; deaf = false; orphan = false };
    credit = record { permits = window; shut = false };
  };
}

abbrev before : Duplex machine Bytes
before = record {
  session = one_chunk;
  uplink = reading;
  uploads = filled (1 ∷ 2 ∷ []) ∷ filled [] ∷ [];
  writer = [];
  downlink = running;
  owed = 0;
  returned = false;
}

abbrev sent_up : Duplex machine Bytes
sent_up = up_step eager tx before

abbrev taken_down : Duplex machine Bytes
taken_down = down_step eager tx sent_up

abbrev at_end : Duplex machine Bytes
at_end = up_step eager tx taken_down

after-Reach : Reach eager tx before ((7 ∷ 8 ∷ []) ∷ []) (give_up eager tx at_end)
unfolding up_step up_from down_step down_from owe send send_loop spend post set_inbox grant start
after-Reach =
    later
      (later (later (later begins (pushes before)) (pulls sent_up refl refl)) (pushes taken_down))
      (returns at_end refl (inl refl))

Reach-Spliced_example : Spliced lawful tx eager before ((7 ∷ 8 ∷ []) ∷ []) (give_up eager tx at_end)
Reach-Spliced_example =
    Reach-Spliced lawful tx eager before (give_up eager tx at_end) ((7 ∷ 8 ∷ []) ∷ []) refl refl
      refl after-Reach (omega arith, tt)

-- A client that sends once more when its stream is closed.
abbrev late : Duplex steady Bytes
late = record {
  session = rich;
  uplink = reading;
  uploads = filled (1 ∷ 2 ∷ []) ∷ [];
  writer = [];
  downlink = over unwritable;
  owed = 0;
  returned = false;
}

give_up-pushes_example :
    (up_step eager tx (give_up eager tx late)).session.out.frames
    ≡ control 1 kind_close ∷ data_frame 1 (1 ∷ 2 ∷ []) ∷ []
give_up-pushes_example =
    give_up-pushes lawful_steady (λ o f. refl) tx eager late 1 (2 ∷ []) [] refl refl (omega arith)
      refl (omega arith)
