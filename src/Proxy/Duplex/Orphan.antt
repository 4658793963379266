-- ===== src/Proxy/Duplex/Orphan.antt =====
-- src/lib.rs, src/mux.rs: the uplink task once `serve_client` has returned without it.
use dsh_proxy.Common.{
  ℕ, ◌≤◌, ◌≡◌, refl, sym, ap, ◌∙◌, List, [], ◌∷◌, ◌++◌, append_assoc, length, inl, inr, false,
  Bool-cases, Option-cases, ◌==◌, lookup, erase, update_ne, arith, ◌≢◌,
}
use dsh_proxy.Common.Bytes.{Bytes}
use dsh_proxy.Frame.{control}
use dsh_proxy.Mux.Runtime.{Runtime, Lawful}
use dsh_proxy.Mux.Session.{Channel, Half, MuxSession}
use dsh_proxy.Mux.Ops.{drop_state, remove_stream, post, close_tx}
use dsh_proxy.Mux.Send.{data_frame, send}
use dsh_proxy.Mux.Send.Live.{Alive, credit_of, send-whole}
use dsh_proxy.Proxy.Client.{Upload, filled, reading}
use dsh_proxy.Proxy.Splice.{Writer}
use dsh_proxy.Proxy.Duplex.{Duplex, up_step, up_from, give_up}
use dsh_proxy.Wire.{kind_close, max_payload}

module _ {rt : Runtime} where
  drop_state-credit :
      (s : MuxSession rt) (at : ℕ) (tx : Half) → credit_of (drop_state s at) tx ≡ credit_of s tx
  unfolding drop_state
  drop_state-credit s at tx = elim (Bool-cases (tx.at == at)) [
    | inl e ↦
        let same : tx.at ≡ at = ground arith in
        rw (e, credit_of) (ap (λ (a : ℕ). (s.heap a).credit) (sym same))
    | inr e ↦
        let ne : tx.at ≢ at = ground arith in
        ap (λ (c : Channel rt). c.credit) (update_ne s.heap at _ tx.at ne)
  ]

  -- `close` leaves the credit of the stream as it was.
  close_tx-credit : (s : MuxSession rt) (tx : Half) → credit_of (close_tx s tx) tx ≡ credit_of s tx
  unfolding close_tx remove_stream post
  close_tx-credit s tx = elim (Option-cases (lookup tx.id s.streams)) [
    | inl e ↦ rw (e, remove_stream) refl
    | inr (at, e) ↦
        rw (e, remove_stream)
          (drop_state-credit (record s { streams = erase tx.id s.streams }) at tx)
  ]

  remove_stream-out : (s : MuxSession rt) (id : ℕ) → (remove_stream s id).out ≡ s.out
  unfolding remove_stream drop_state
  remove_stream-out s id = elim (Option-cases (lookup id s.streams)) [
    | inl e ↦ rw (e, remove_stream) refl
    | inr (at, e) ↦ rw (e, remove_stream) refl
  ]

module _ {rt : Runtime} (law : Lawful rt) (alive : Alive rt) where
  closed_out :
      (s : MuxSession rt) (tx : Half)
      → rt.accepted (close_tx s tx).out ≡ rt.accepted s.out ++ (control tx.id kind_close ∷ [])
  unfolding close_tx post
  closed_out s tx =
      law.send-taken (remove_stream s tx.id).out _ (control tx.id kind_close) (
        ap (λ b. ((rt.send (remove_stream s tx.id).out (control tx.id kind_close)).0, b))
          (alive (remove_stream s tx.id).out (control tx.id kind_close)))
      ∙ ap (λ o. rt.accepted o ++ (control tx.id kind_close ∷ [])) (remove_stream-out s tx.id)

  module _ (tx : Half) {W : Type 0} (client : Writer W) where
    pushed :
        (d : Duplex rt W) (x : ℕ) (xs : Bytes) (more : List Upload)
        → d.uplink ≡ reading
        → d.uploads ≡ filled (x ∷ xs) ∷ more
        → (up_step client tx d).session ≡ (send d.session tx (x ∷ xs)).0
    unfolding up_step up_from
    pushed d x xs more reads next = rw (reads, next) refl

    -- On a living link, if the uplink waits for the client and the credit of the stream is open when
    -- `serve_client` returns, the bytes that the client sends then, at most a frame of them and no more
    -- than the credit, are given to the link behind the CLOSE of their stream.
    pub give_up-pushes :
        (d : Duplex rt W) (x : ℕ) (xs : Bytes) (more : List Upload)
        → d.uplink ≡ reading
        → d.uploads ≡ filled (x ∷ xs) ∷ more
        → length (x ∷ xs) ≤ max_payload
        → rt.is_closed (credit_of d.session tx) ≡ false
        → length (x ∷ xs) ≤ rt.available (credit_of d.session tx)
        → rt.accepted (up_step client tx (give_up client tx d)).session.out
          ≡ rt.accepted d.session.out ++ (control tx.id kind_close ∷ data_frame tx.id (x ∷ xs) ∷ [])
    unfolding give_up
    give_up-pushes d x xs more reads next fits o enough =
        let s = close_tx d.session tx in
        let same = close_tx-credit d.session tx in
        ap (λ (r : MuxSession rt). rt.accepted r.out)
          (pushed (give_up client tx d) x xs more reads next)
        ∙ send-whole law alive s tx x xs fits (ap rt.is_closed same ∙ o)
            (omega (arith, ap rt.available same, enough))
        ∙ ap (λ l. l ++ (data_frame tx.id (x ∷ xs) ∷ [])) (closed_out d.session tx)
        ∙ append_assoc (rt.accepted d.session.out) _ _
