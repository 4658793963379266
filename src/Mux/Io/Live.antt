-- ===== src/Mux/Io/Live.antt =====
-- src/mux.rs: flushing `MuxStreamIo` comes to an end, and writing without flushing may not.
use dsh_proxy.Common.{
  ◌≤◌, ◌≡◌, refl, sym, ap, subst, ◌∙◌, [], ◌++◌, length, length-append, Option, none, some, inl,
  inr, true, false, Bool-cases, if◌then◌else◌, ok, Poll, ◌==◌, arith,
}
use dsh_proxy.Common.Bytes.{Bytes}
use dsh_proxy.Mux.Runtime.{Runtime, Lawful}
use dsh_proxy.Mux.Session.{MuxSession}
use dsh_proxy.Mux.Send.{done, send}
use dsh_proxy.Mux.Send.Live.{Alive, credit_of, send-Done}
use dsh_proxy.Mux.Io.{MuxStreamIo, launch, flush_out, resume, flush_from, poll_flush}
use dsh_proxy.Mux.Io.Fifo.{in_flight, queued}

-- The answer and the state of a flush that is done with an empty queue.
abbrev pub IsFlushed : {rt : Runtime} → (MuxSession rt × MuxStreamIo) × Poll (Unit {0}) → Type 0
IsFlushed a = (a.1 ≡ Poll.ready (ok tt)) × (queued (a.0).1 ≡ [])

module _ {rt : Runtime} (law : Lawful rt) (alive : Alive rt) where
  -- A send in flight ends at one poll.
  resumed :
      (s : MuxSession rt) (io : MuxStreamIo) (rest : Bytes)
      → rt.is_closed (credit_of s io.tx) ≡ false
      → length rest ≤ rt.available (credit_of s io.tx)
      → flush_from s io (some rest) ≡ resume (send s io.tx rest).0 io done
  unfolding flush_from
  resumed s io rest o c =
      ap (λ p. resume (send s io.tx rest).0 io p) (send-Done law alive s io.tx rest o c).finished

  nothing_left :
      (s : MuxSession rt) (io : MuxStreamIo)
      → io.pending ≡ none
      → (length io.out == 0) ≡ true
      → IsFlushed (flush_from s io none)
  unfolding flush_from flush_out
  nothing_left s io e b =
      let idle : in_flight io ≡ [] = rw (e, in_flight) refl in
      let out : io.out ≡ [] = ground arith in
      rw (b, if◌then◌else◌) (refl, ap (λ l. l ++ io.out) idle ∙ out)

  last_send :
      (s : MuxSession rt) (io : MuxStreamIo)
      → rt.is_closed (credit_of s io.tx) ≡ false
      → length io.out ≤ rt.available (credit_of s io.tx)
      → IsFlushed (poll_flush s (launch io))
  unfolding poll_flush
  last_send s io o c =
      subst (λ (a : (MuxSession rt × MuxStreamIo) × Poll (Unit {0})). IsFlushed a)
        (sym (resumed s (launch io) io.out o c)) (unfold resume flush_out in (refl, refl))

  -- With nothing in flight one poll is done, or starts the last send.
  flush_idle :
      (s : MuxSession rt) (io : MuxStreamIo)
      → io.pending ≡ none
      → rt.is_closed (credit_of s io.tx) ≡ false
      → length io.out ≤ rt.available (credit_of s io.tx)
      → IsFlushed (poll_flush s (flush_out io).0)
  unfolding flush_out
  flush_idle s io e o c = elim (Bool-cases (length io.out == 0)) [
    | inl b ↦
        let same : flush_from s io none ≡ poll_flush s io =
          unfold poll_flush in ap (flush_from s io) (sym e) in
        rw (b, if◌then◌else◌)
          (subst (λ (a : (MuxSession rt × MuxStreamIo) × Poll (Unit {0})). IsFlushed a) same
            (nothing_left s io e b))
    | inr b ↦ rw (b, if◌then◌else◌) (last_send s io o c)
  ]

  flush_again :
      (s : MuxSession rt) (io : MuxStreamIo) (o : Option Bytes)
      → io.pending ≡ o
      → rt.is_closed (credit_of s io.tx) ≡ false
      → length (queued io) ≤ rt.available (credit_of s io.tx)
      → let a = flush_from s io o in IsFlushed (poll_flush (a.0).0 (a.0).1)
  flush_again s io none e o c =
      unfold flush_from in
      flush_idle s io e o (omega (arith, c, length-append (in_flight io) io.out))
  flush_again s io (some rest) e o c =
      let flight : in_flight io ≡ rest = rw (e, in_flight) refl in
      let size = length-append (in_flight io) io.out in
      let same = ap length flight in
      let v = send-Done law alive s io.tx rest o (omega (arith, c, size, same)) in
      subst
        (λ (a : (MuxSession rt × MuxStreamIo) × Poll (Unit {0})).
          IsFlushed (poll_flush (a.0).0 (a.0).1))
        (sym (resumed s io rest o (omega (arith, c, size, same))))
        (unfold resume in
          flush_idle (send s io.tx rest).0 (record io { pending = none }) refl v.open_credit
            (omega (arith, v.paid, c, size, same)))

  -- On a link that takes every frame, with the credit open and enough for all that is queued, the second
  -- of two polls of a flush is done and leaves nothing queued.
  pub flush_twice :
      (s : MuxSession rt) (io : MuxStreamIo)
      → rt.is_closed (credit_of s io.tx) ≡ false
      → length (queued io) ≤ rt.available (credit_of s io.tx)
      → let a = poll_flush s io in IsFlushed (poll_flush (a.0).0 (a.0).1)
  flush_twice s io o c = unfold poll_flush in flush_again s io io.pending refl o c
