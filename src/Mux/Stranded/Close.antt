-- ===== src/Mux/Stranded/Close.antt =====
-- src/mux.rs: `StreamTx::close` and a send of the same stream that waits for credit.
use dsh_proxy.Common.{
  ℕ, ◌≡◌, ◌≢◌, refl, sym, ap, ◌∙◌, List, ◌∷◌, length, min, All, none, some, inl, inr, false, lookup,
  erase, Distinct, Distinct-erase, lookup-erase_self, lookup-erase_ne, update_self, arith, ◌==◌,
  Bool-cases,
}
use dsh_proxy.Common.Bytes.{Bytes}
use dsh_proxy.Mux.Runtime.{Runtime}
use dsh_proxy.Mux.Session.{Channel, Half, MuxSession}
use dsh_proxy.Mux.Ops.{drop_state, remove_stream, post, close_tx}
use dsh_proxy.Mux.Read.Streams.{Apart}
use dsh_proxy.Mux.Runs.{Call, run}
use dsh_proxy.Mux.Send.{parked, send_loop, send}
use dsh_proxy.Mux.Stranded.{Unmapped, Distinct-Unmapped, Stranded}
use dsh_proxy.Mux.Stranded.Calls.{Foreign, run-Left}
use dsh_proxy.Wire.{max_payload}

module _ {rt : Runtime} where
  -- The address of a stream that `close` took out of the map, its credit as it was.
  close_tx-Stranded :
      (s : MuxSession rt) (tx : Half)
      → Apart s
      → Distinct s.streams
      → lookup tx.id s.streams ≡ some tx.at
      → Stranded tx.at (close_tx s tx)
        × (((close_tx s tx).heap tx.at).credit ≡ (s.heap tx.at).credit)
  unfolding close_tx post remove_stream drop_state
  close_tx-Stranded s tx v d e =
      rw (e, remove_stream)
        (
          record { known = v.known tx.id tx.at e; unmapped = gone },
          ap (λ (c : Channel rt). c.credit) (update_self s.heap tx.at _),
        )
    where
      other : (j a : ℕ) → lookup j (erase tx.id s.streams) ≡ some a → a ≢ tx.at
      other j a h q = elim (Bool-cases (j == tx.id)) [
        | inl b ↦
            let out = lookup-erase_self tx.id s.streams d in
            let same : j ≡ tx.id = ground arith in absurd (ground arith)
        | inr b ↦
            let ne : j ≢ tx.id = ground arith in
            ne (
              sym (
                v.unshared tx.id j tx.at e
                  (sym (lookup-erase_ne j tx.id s.streams ne) ∙ h ∙ ap some q)))
      ]

      gone : Unmapped tx.at (erase tx.id s.streams)
      gone =
          Distinct-Unmapped tx.at (erase tx.id s.streams) (Distinct-erase tx.id s.streams d) other

  -- A send whose first frame the credit cannot pay waits, whatever the rest of the session is.
  send-parked :
      (s : MuxSession rt) (tx : Half) (x : ℕ) (xs : Bytes)
      → rt.is_closed (s.heap tx.at).credit ≡ false
      → rt.try_acquire (min (length (x ∷ xs)) max_payload) (s.heap tx.at).credit ≡ none
      → send s tx (x ∷ xs) ≡ (s, parked (x ∷ xs))
  unfolding send send_loop
  send-parked s tx x xs o q = rw (o, q, send_loop) refl

  -- In a session whose map leads to addresses that were handed out before, each from one key that stands
  -- once, a send that waits for open credit when `close` is called on its stream, which is in the map,
  -- still waits with all that it had left when it is polled again, whatever the peer sends and whatever
  -- other tasks do that do not send on that stream, the teardown of the link included.
  pub close_tx-strands :
      (s : MuxSession rt) (tx : Half) (x : ℕ) (xs : Bytes) (cs : List Call)
      → Apart s
      → Distinct s.streams
      → lookup tx.id s.streams ≡ some tx.at
      → rt.is_closed (s.heap tx.at).credit ≡ false
      → rt.try_acquire (min (length (x ∷ xs)) max_payload) (s.heap tx.at).credit ≡ none
      → All (Foreign tx.at) cs
      → (send (run (close_tx s tx) cs) tx (x ∷ xs)).1 ≡ parked (x ∷ xs)
  close_tx-strands s tx x xs cs v d e o q fs =
      let (w, same) = close_tx-Stranded s tx v d e in
      let (w', still) = run-Left tx.at (close_tx s tx) cs fs w in
      let credit = ap (λ (c : Channel rt). c.credit) still ∙ same in
      ap (λ p. p.1)
        (send-parked (run (close_tx s tx) cs) tx x xs (ap rt.is_closed credit ∙ o)
          (ap (rt.try_acquire (min (length (x ∷ xs)) max_payload)) credit ∙ q))
