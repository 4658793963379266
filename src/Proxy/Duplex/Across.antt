-- ===== src/Proxy/Duplex/Across.antt =====
-- src/lib.rs: a round of either loop of a splice leaves what the other direction has reached.
use dsh_proxy.Common.{
  ◌+◌, ◌≡◌, refl, sym, ap, ◌∙◌, List, [], ◌∷◌, ◌++◌, length, append-nil, inl, inr, Bool-cases, leb,
  ℕ, subst,
}
use dsh_proxy.Common.Bytes.{Bytes}
use dsh_proxy.Mux.Runtime.{Runtime, Lawful, Received, chunk, ended, waiting}
use dsh_proxy.Mux.Session.{Half, MuxSession}
use dsh_proxy.Mux.Ops.{grant}
use dsh_proxy.Mux.Read.{set_inbox}
use dsh_proxy.Mux.Send.Carried.{carried, carried-append, carried-other}
use dsh_proxy.Proxy.Client.{Upload, filled, unreadable, Uplink, reading, finished, cut_off, sending}
use dsh_proxy.Proxy.Splice.{
  Writer, grant_threshold, add_pending, credit_frame, grant-accepted, grant-refused,
}
use dsh_proxy.Proxy.Duplex.{Duplex, push, up_from, up_step, owe, down_from, down_step}
use dsh_proxy.Proxy.Duplex.Upward.{Uploaded, sent-credited}
use dsh_proxy.Proxy.Duplex.Downward.{Held, Level}

module _ {rt : Runtime} (law : Lawful rt) (tx : Half) {W : Type 0} (client : Writer W) where
  abbrev pub Lifted : Bytes → Duplex rt W → Type 0
  Lifted bytes d = Uploaded law tx bytes d.session d.uplink d.uploads

  push-Held :
      (base : Bytes) (start : ℕ) (bytes : Bytes) (d : Duplex rt W) (b : Bytes) (more : List Upload)
      → Held law tx client base start bytes d
      → Held law tx client base start bytes (push client tx d b more)
  push-Held base start bytes d b more v = record {
    torn = v.torn;
    wrote = v.wrote;
    level =
        subst (λ k. Level d.downlink k d.owed v.torn (start + length bytes))
          (sym (sent-credited law tx d.session b)) v.level;
  }

  up_from-Held :
      (base : Bytes) (start : ℕ) (bytes : Bytes) (d : Duplex rt W) (up : Uplink)
      (more : List Upload)
      → Held law tx client base start bytes d
      → Held law tx client base start bytes (up_from client tx d up more)
  unfolding up_from
  up_from-Held base start bytes d reading [] v = v
  up_from-Held base start bytes d reading (unreadable e ∷ more) v = record {
    torn = v.torn;
    wrote = v.wrote;
    level = v.level;
  }
  up_from-Held base start bytes d reading (filled [] ∷ more) v = record {
    torn = v.torn;
    wrote = v.wrote;
    level = v.level;
  }
  up_from-Held base start bytes d reading (filled (x ∷ xs) ∷ more) v =
      push-Held base start bytes d (x ∷ xs) more v
  up_from-Held base start bytes d (sending rest) more v = push-Held base start bytes d rest more v
  up_from-Held base start bytes d finished more v = v
  up_from-Held base start bytes d cut_off more v = v

  pub up_step-Held :
      (base : Bytes) (start : ℕ) (bytes : Bytes) (d : Duplex rt W)
      → Held law tx client base start bytes d
      → Held law tx client base start bytes (up_step client tx d)
  unfolding up_step
  up_step-Held base start bytes d v = up_from-Held base start bytes d d.uplink d.uploads v

  -- A grant carries no data.
  granted-carried :
      (s : MuxSession rt) (p : ℕ)
      → carried tx.id (rt.accepted (grant s tx p).0.out) ≡ carried tx.id (rt.accepted s.out)
  granted-carried s p = elim (Bool-cases (grant s tx p).1) [
    | inr lost ↦ ap (carried tx.id) (grant-refused client law s tx p lost)
    | inl sent ↦
        ap (carried tx.id) (grant-accepted client law s tx p sent)
        ∙ carried-append tx.id (rt.accepted s.out) (credit_frame tx.id p ∷ [])
        ∙ ap (λ l. carried tx.id (rt.accepted s.out) ++ l)
            (carried-other tx.id (credit_frame tx.id p) refl)
        ∙ append-nil _
  ]

  owe-Lifted :
      (bytes : Bytes) (d : Duplex rt W) (p : ℕ) → Lifted bytes d → Lifted bytes (owe client tx d p)
  unfolding owe
  owe-Lifted bytes d p v =
      let quiet = ap (λ l. l ++ v.rest) (granted-carried d.session p) ∙ v.joined in
      elim (Bool-cases (leb grant_threshold p)) [
        | inr below ↦
            rw (below, owe) (record { rest = v.rest; joined = v.joined; remains = v.remains })
        | inl enough ↦ elim (Bool-cases (grant d.session tx p).1) [
          | inr lost ↦
              rw (enough, lost, owe) (record { rest = v.rest; joined = quiet; remains = v.remains })
          | inl sent ↦
              rw (enough, sent, owe) (record { rest = v.rest; joined = quiet; remains = v.remains })
        ]
      ]

  down_from-Lifted :
      (bytes : Bytes) (d : Duplex rt W) (r : Received)
      → Lifted bytes d
      → Lifted bytes (down_from client tx d r)
  unfolding down_from
  down_from-Lifted bytes d waiting v = v
  down_from-Lifted bytes d ended v = record {
    rest = v.rest;
    joined = v.joined;
    remains = v.remains;
  }
  down_from-Lifted bytes d (chunk b) v =
      let w : Duplex rt W = record d { writer = (client.write_all d.writer b).0 } in
      let u : Lifted bytes w = record { rest = v.rest; joined = v.joined; remains = v.remains } in
      elim (Bool-cases (client.write_all d.writer b).1) [
        | inl e ↦ rw (e, down_from) (owe-Lifted bytes w (add_pending d.owed b) u)
        | inr e ↦
            rw (e, down_from) (record { rest = v.rest; joined = v.joined; remains = v.remains })
      ]

  pub down_step-Lifted :
      (bytes : Bytes) (d : Duplex rt W) → Lifted bytes d → Lifted bytes (down_step client tx d)
  unfolding down_step set_inbox
  down_step-Lifted bytes d v =
      let (i, r) = rt.poll_recv (d.session.heap tx.at).inbox in
      down_from-Lifted bytes (record d { session = set_inbox d.session tx.at i }) r
        (record { rest = v.rest; joined = v.joined; remains = v.remains })
