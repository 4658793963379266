-- ===== src/Link/Tests.antt =====
-- Two sessions on a link whose sink writes on each flush, and one whose sink fails.
use dsh_proxy.Common.{
  ◌≡◌, refl, sym, ◌∙◌, List, [], ◌∷◌, ◌++◌, All, append-nil, take, drop, take-append-drop, Bool,
  true, lookup, arith, ap, inr,
}
use dsh_proxy.Common.Bytes.{Bytes}
use dsh_proxy.Frame.{Frame, control}
use dsh_proxy.Mux.Ops.{start, try_open_stream, open_reserved, allocate, insert_stream, post}
use dsh_proxy.Mux.Read.{read_loop}
use dsh_proxy.Mux.Runs.{Call, opens, call, run}
use dsh_proxy.Mux.Sendable.{Sendable, run-Sendable}
use dsh_proxy.Mux.Tests.Machine.{Link, machine, lawful}
use dsh_proxy.Noise.{NoiseEncoder, encode}
use dsh_proxy.Noise.Tests.{encoder, decoder, tagged-Paired}
use dsh_proxy.Link.{Sink, is_ok, stream, IsEncoded, Faithful, writer_task}
use dsh_proxy.Link.Polled.{read_all, read_all-Driven}
use dsh_proxy.Link.Delivery.{Delivered}
use dsh_proxy.Link.Sessions.{sessions-Delivered}
use dsh_proxy.Wire.{kind_open}
use mathlib.Core.List.{flatten}

-- It encodes into the buffer, and writes on each flush.
record Framed : Type 0 where
  inner : Bytes
  encoder_in : NoiseEncoder
  buffered : Bytes

abbrev put : Framed → Frame → Framed × Bool
put w f =
    let (e, b, r) = encode w.encoder_in f w.buffered in
    (record w { encoder_in = e; buffered = b }, is_ok r)

abbrev write_out : Framed → Framed × Bool
write_out w = (record w { inner = w.inner ++ w.buffered; buffered = [] }, true)

abbrev prompt : Sink Framed
prompt = record {
  taken = λ w. w.inner;
  buffer = λ w. w.buffered;
  encoder = λ w. w.encoder_in;
  feed = put;
  flush = write_out;
}

put-IsEncoded :
    (w w' : Framed) (f : Frame) (fed : Bool) → put w f ≡ (w', fed) → IsEncoded prompt w f w' fed
put-IsEncoded w w' f fed e = (
  w.buffered,
  ap (λ (r : Framed × Bool). r.0.inner ++ w.buffered) (sym e),
  ap (λ (r : Framed × Bool). r.0.encoder_in) (sym e),
  ap (λ (r : Framed × Bool). r.0.buffered) (sym e),
  ap (λ (r : Framed × Bool). r.1) (sym e),
)

write_out_lem :
    (w w' : Framed) (flushed : Bool)
    → write_out w ≡ (w', flushed)
    → (stream prompt w' ≡ stream prompt w)
      × (w'.encoder_in ≡ w.encoder_in)
      × (flushed ≡ true → w'.buffered ≡ [])
write_out_lem w w' flushed e = (
  ap (λ (r : Framed × Bool). r.0.inner ++ r.0.buffered) (sym e) ∙ append-nil _,
  ap (λ (r : Framed × Bool). r.0.encoder_in) (sym e),
  λ q. ap (λ (r : Framed × Bool). r.0.buffered) (sym e),
)

prompt-Faithful : Faithful prompt
prompt-Faithful = record {
  feeds = λ w w' f fed e. inr (put-IsEncoded w w' f fed e);
  flushes = write_out_lem;
}

abbrev fresh_link : Link
fresh_link = record { frames = []; alive = true }

abbrev at_rest : Framed
at_rest = record { inner = []; encoder_in = encoder; buffered = [] }

-- Two streams are opened, and their frames are written one by one.
abbrev opening : List Call
opening = opens ∷ opens ∷ []

abbrev one_by_one : List (List Frame)
one_by_one = (control 1 kind_open ∷ []) ∷ (control 2 kind_open ∷ []) ∷ []

abbrev written : Bytes
written = (writer_task prompt at_rest one_by_one).0.inner

run-Sendable_example : All Sendable ((run (start {rt = machine} fresh_link 4) opening).out.frames)
run-Sendable_example = run-Sendable lawful fresh_link 4 opening refl (tt, (tt, tt))

opened_frames :
    flatten one_by_one ++ [] ≡ (run (start {rt = machine} fresh_link 4) opening).out.frames
unfolding run call start try_open_stream open_reserved allocate insert_stream post lookup flatten
opened_frames = refl

sessions-Delivered_example :
    Delivered
      (start {rt = machine} fresh_link 4)
      (flatten one_by_one)
      (writer_task prompt at_rest one_by_one).1
      []
      (read_loop (start fresh_link 4) (read_all decoder [] (take 5 written ∷ drop 5 written ∷ [])))
unfolding flatten
sessions-Delivered_example =
    sessions-Delivered lawful prompt prompt-Faithful read_all read_all-Driven fresh_link 4 opening
      one_by_one [] at_rest decoder (start fresh_link 4) (take 5 written ∷ drop 5 written ∷ []) []
      refl (tt, (tt, tt)) opened_frames tagged-Paired refl (omega arith) refl refl
      (ap (λ l. l ++ [])
          (ap (λ l. take 5 written ++ l) (append-nil (drop 5 written)) ∙ take-append-drop 5 written)
        ∙ append-nil written)
