-- ===== src/Proxy/Duplex/Upward.antt =====
-- src/lib.rs: what the client sends and what of it stands on the link, at every step of a splice.
use dsh_proxy.Common.{
  ◌≡◌, refl, sym, ap, subst, ◌∙◌, List, [], ◌∷◌, ◌++◌, append-nil, inl, inr, arith,
}
use dsh_proxy.Common.Bytes.{Bytes}
use dsh_proxy.Mux.Runtime.{Runtime, Lawful}
use dsh_proxy.Mux.Session.{Half, MuxSession}
use dsh_proxy.Mux.Runs.{Call, call}
use dsh_proxy.Mux.Emits.{Keeps}
use dsh_proxy.Mux.Emits.Calls.{call-Emits}
use dsh_proxy.Mux.Send.{Progress, Progress-cases, done, broken, parked, send}
use dsh_proxy.Mux.Send.Flow.{Flow, send-Flow}
use dsh_proxy.Mux.Send.Carried.{carried, carried-append, sent_part}
use dsh_proxy.Proxy.Client.{Upload, filled, unreadable, Uplink, reading, finished, cut_off, sending}
use dsh_proxy.Proxy.Client.Laws.{sent_by}
use dsh_proxy.Proxy.Splice.{Writer}
use dsh_proxy.Proxy.Duplex.{Duplex, standing, up_from, up_step}
use dsh_proxy.Proxy.Duplex.Traffic.{credited, credited-append, credited-data, All-Silent, elsewhere}

module _ {rt : Runtime} (law : Lawful rt) (tx : Half) where
  -- Neither the data of the stream on the link nor the credit that was returned for it has changed.
  pub record Calm (s s' : MuxSession rt) : Type 0 where
    pub carries : carried tx.id (rt.accepted s'.out) ≡ carried tx.id (rt.accepted s.out)
    pub credits : credited tx.id (rt.accepted s'.out) ≡ credited tx.id (rt.accepted s.out)

  pub call-Calm : (s : MuxSession rt) (c : Call) → Keeps (elsewhere tx.id) c → Calm s (call s c)
  call-Calm s c h =
      let v =
        call-Emits law (elsewhere tx.id) s s c h
          (record { next = tt; new = []; grown = sym (append-nil _); each = tt }) in
      let (quiet, free) = All-Silent tx.id v.new v.each in
      record {
        carries =
            ap (carried tx.id) v.grown
            ∙ carried-append tx.id (rt.accepted s.out) v.new
            ∙ ap (λ l. carried tx.id (rt.accepted s.out) ++ l) quiet
            ∙ append-nil _;
        credits =
            ap (credited tx.id) v.grown
            ∙ credited-append tx.id (rt.accepted s.out) v.new
            ∙ omega (arith, free);
      }

  -- What of the client's bytes is not on the link.
  abbrev pub Remains : Uplink → List Upload → Bytes → Type 0
  Remains reading more rest = rest ≡ sent_by more
  Remains finished more rest = rest ≡ []
  Remains cut_off more rest = Unit {0}
  Remains (sending left) more rest = rest ≡ left ++ sent_by more

  -- The client's bytes on the link, behind them those that are not, are these.
  pub record Uploaded (bytes : Bytes) (s : MuxSession rt) (up : Uplink) (more : List Upload)
      : Type 0 where
    pub rest : Bytes
    pub joined : carried tx.id (rt.accepted s.out) ++ rest ≡ bytes
    pub remains : Remains up more rest

  pub Calm-Uploaded :
      (bytes : Bytes) (s s' : MuxSession rt) (up : Uplink) (more : List Upload)
      → Calm s s'
      → Uploaded bytes s up more
      → Uploaded bytes s' up more
  Calm-Uploaded bytes s s' up more c v = record {
    rest = v.rest;
    joined = ap (λ l. l ++ v.rest) c.carries ∙ v.joined;
    remains = v.remains;
  }

  sent-Uploaded :
      (bytes chunk : Bytes) (s : MuxSession rt) (more : List Upload)
      → carried tx.id (rt.accepted s.out) ++ (chunk ++ sent_by more) ≡ bytes
      → Uploaded bytes (send s tx chunk).0 (standing (send s tx chunk).1) more
  sent-Uploaded bytes chunk s more e = elim (Progress-cases p) [
    | inl q ↦
        subst (λ o. Uploaded bytes s' (standing o) more) (sym q)
          (let w = flow q in
            record {
              rest = sent_by more;
              joined =
                  ap (λ r. carried tx.id (rt.accepted s'.out) ++ (r ++ sent_by more)) (sym w.ends.0)
                  ∙ sent_part law s s' tx chunk done (sent_by more) w
                  ∙ e;
              remains = refl;
            })
    | inr (inl q) ↦
        subst (λ o. Uploaded bytes s' (standing o) more) (sym q)
          (let w = flow q in
            record {
              rest = w.rest ++ sent_by more;
              joined = sent_part law s s' tx chunk broken (sent_by more) w ∙ e;
              remains = tt;
            })
    | inr (inr (inl q)) ↦ absurd (flow q).ends
    | inr (inr (inr (left, q))) ↦
        subst (λ o. Uploaded bytes s' (standing o) more) (sym q)
          (let w = flow q in
            record {
              rest = w.rest ++ sent_by more;
              joined = sent_part law s s' tx chunk (parked left) (sent_by more) w ∙ e;
              remains = ap (λ l. l ++ sent_by more) w.ends.0;
            })
  ]
    where
      s' : MuxSession rt
      s' = (send s tx chunk).0

      p : Progress
      p = (send s tx chunk).1

      flow : {o : Progress} → p ≡ o → Flow law s tx chunk s' o
      flow q = subst (λ o. Flow law s tx chunk s' o) q (send-Flow law s tx chunk)

  pub sent-credited :
      (s : MuxSession rt) (chunk : Bytes)
      → credited tx.id (rt.accepted (send s tx chunk).0.out) ≡ credited tx.id (rt.accepted s.out)
  sent-credited s chunk =
      let w = send-Flow law s tx chunk in
      ap (credited tx.id) w.emitted
      ∙ omega
          (arith, credited-append tx.id (rt.accepted s.out) _, credited-data tx.id tx.id w.chunks)

  module _ {W : Type 0} (client : Writer W) where
    read_on :
        (d : Duplex rt W) (more : List Upload) {bytes : Bytes}
        (v : Uploaded bytes d.session reading more)
        → carried tx.id (rt.accepted d.session.out) ++ sent_by more ≡ bytes
    read_on d more v =
        ap (λ r. carried tx.id (rt.accepted d.session.out) ++ r) (sym v.remains) ∙ v.joined

    up_from-Uploaded :
        (bytes : Bytes) (d : Duplex rt W) (up : Uplink) (more : List Upload)
        → d.uplink ≡ up
        → d.uploads ≡ more
        → Uploaded bytes d.session up more
        → let d' = up_from client tx d up more in Uploaded bytes d'.session d'.uplink d'.uploads
    unfolding up_from
    up_from-Uploaded bytes d reading [] e k v =
        subst (λ (m : List Upload). Uploaded bytes d.session d.uplink m) (sym k)
          (subst (λ (u : Uplink). Uploaded bytes d.session u []) (sym e) v)
    up_from-Uploaded bytes d reading (unreadable x ∷ more) e k v = record {
      rest = [];
      joined = read_on d (unreadable x ∷ more) v;
      remains = refl;
    }
    up_from-Uploaded bytes d reading (filled [] ∷ more) e k v = record {
      rest = [];
      joined = read_on d (filled [] ∷ more) v;
      remains = refl;
    }
    up_from-Uploaded bytes d reading (filled (x ∷ xs) ∷ more) e k v =
        sent-Uploaded bytes (x ∷ xs) d.session more (read_on d (filled (x ∷ xs) ∷ more) v)
    up_from-Uploaded bytes d (sending rest) more e k v =
        sent-Uploaded bytes rest d.session more
          (ap (λ r. carried tx.id (rt.accepted d.session.out) ++ r) (sym v.remains) ∙ v.joined)
    up_from-Uploaded bytes d finished more e k v =
        subst (λ (m : List Upload). Uploaded bytes d.session d.uplink m) (sym k)
          (subst (λ (u : Uplink). Uploaded bytes d.session u more) (sym e) v)
    up_from-Uploaded bytes d cut_off more e k v =
        subst (λ (m : List Upload). Uploaded bytes d.session d.uplink m) (sym k)
          (subst (λ (u : Uplink). Uploaded bytes d.session u more) (sym e) v)

    pub up_step-Uploaded :
        (bytes : Bytes) (d : Duplex rt W)
        → Uploaded bytes d.session d.uplink d.uploads
        → let d' = up_step client tx d in Uploaded bytes d'.session d'.uplink d'.uploads
    unfolding up_step
    up_step-Uploaded bytes d v = up_from-Uploaded bytes d d.uplink d.uploads refl refl v
