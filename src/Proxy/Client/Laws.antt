-- ===== src/Proxy/Client/Laws.antt =====
-- src/lib.rs: what the bridge gets of a client that `serve_client` splices onto it.
use dsh_proxy.Common.{
  ℕ, ◌+◌, ◌≤◌, ◌≡◌, refl, sym, ap, subst, ◌∙◌, List, [], ◌∷◌, ◌++◌, length, some, inl, inr, true,
  arith, append_assoc, if◌then◌else◌, ◌%◌, ◌^◌,
}
use dsh_proxy.Common.Bytes.{Bytes}
use dsh_proxy.Frame.{control}
use dsh_proxy.Mux.Runtime.{Runtime, Lawful}
use dsh_proxy.Mux.Session.{Half, MuxSession}
use dsh_proxy.Mux.Ops.{try_open_stream, open_reserved, insert_stream, allocate, post}
use dsh_proxy.Mux.Ops.Open.{Known, Opened, try_open_stream-Opened}
use dsh_proxy.Mux.Send.{Progress, Progress-cases, done, broken, parked, data_frame, send}
use dsh_proxy.Mux.Send.Live.{Alive, send-Done, send-whole}
use dsh_proxy.Mux.Send.Flow.{Flow, send-Flow}
use dsh_proxy.Mux.Send.Carried.{carried, sent_part}
use dsh_proxy.Proxy.Client.{
  runs, greet, open_for, Upload, filled, unreadable, Uplink, reading, finished, cut_off, sending,
  uplink,
}
use dsh_proxy.Wire.{kind_open, max_payload}

module _ {rt : Runtime} (law : Lawful rt) (alive : Alive rt) where
  greet-Opened :
      (s s' : MuxSession rt) (tx : Half) (x : ℕ) (xs : Bytes)
      → Opened law s s' tx
      → length (x ∷ xs) ≤ max_payload
      → ((greet s' tx (x ∷ xs)).1 ≡ runs tx)
        × (rt.accepted (greet s' tx (x ∷ xs)).0.out
            ≡ rt.accepted s.out ++ (control tx.id kind_open ∷ data_frame tx.id (x ∷ xs) ∷ []))
  unfolding greet
  greet-Opened s s' tx x xs v fits =
      let enough : length (x ∷ xs) ≤ rt.available (s'.heap tx.at).credit =
        omega (arith, v.credit, fits) in
      let d = send-Done law alive s' tx (x ∷ xs) v.usable enough in
      (
        rw (d.finished, greet) refl,
        send-whole law alive s' tx x xs fits v.usable enough
            ∙ ap (λ l. l ++ (data_frame tx.id (x ∷ xs) ∷ [])) v.announced
            ∙ append_assoc (rt.accepted s.out) _ _,
      )

  opens_one :
      (s : MuxSession rt) (b : rt.Sem)
      → rt.try_acquire 1 s.budget ≡ some b
      → (try_open_stream s).1 ≡ some (record { id = s.next_id; at = s.fresh })
  unfolding try_open_stream open_reserved
  opens_one s b got =
      let s2 =
        insert_stream (allocate (record s { budget = b; next_id = (s.next_id + 1) % 2 ^ 32 }))
          s.next_id s.fresh in
      let sent : (post s2 (control s.next_id kind_open)).1 ≡ true = unfold post in alive s2.out _ in
      rw (got, try_open_stream, sent, if◌then◌else◌) refl

  -- On a living link with a permit left, a client's stream is opened and the bridge is told of it by an
  -- OPEN frame and behind it one DATA frame with the client's preamble, and by nothing else.
  pub open_for-greets :
      (s : MuxSession rt) (b : rt.Sem) (x : ℕ) (xs : Bytes)
      → Known s
      → rt.try_acquire 1 s.budget ≡ some b
      → length (x ∷ xs) ≤ max_payload
      → let r = open_for s (x ∷ xs) in
        (r.1 ≡ runs (record { id = s.next_id; at = s.fresh }))
        × (rt.accepted r.0.out
            ≡ rt.accepted s.out
              ++ (control s.next_id kind_open ∷ data_frame s.next_id (x ∷ xs) ∷ []))
  unfolding open_for
  open_for-greets s b x xs known got fits =
      let tx : Half = record { id = s.next_id; at = s.fresh } in
      let opened = opens_one s b got in
      rw (opened, open_for)
        (greet-Opened s (try_open_stream s).0 tx x xs
          (try_open_stream-Opened law s _ tx known (ap (λ o. ((try_open_stream s).0, o)) opened))
          fits)

-- What a client sent, up to where its socket ended.
abbrev pub sent_by : List Upload → Bytes
sent_by [] = []
sent_by (unreadable e ∷ more) = []
sent_by (filled [] ∷ more) = []
sent_by (filled (x ∷ xs) ∷ more) = (x ∷ xs) ++ sent_by more

module _ {rt : Runtime} (law : Lawful rt) where
  -- What an uplink that stands as it does has left unsent.
  abbrev pub Unsent : Uplink → Bytes → List Upload → Type 0
  Unsent reading rest more = rest ≡ []
  Unsent finished rest more = rest ≡ []
  Unsent cut_off rest more = Unit {0}
  Unsent (sending left) rest more = rest ≡ left ++ sent_by more

  -- The bytes of the client that are on the link and those that are not.
  pub record Carried (s : MuxSession rt) (tx : Half) (reads : List Upload)
      (r : MuxSession rt × Uplink × List Upload) : Type 0 where
    pub rest : Bytes
    pub joined :
        carried tx.id (rt.accepted r.0.out) ++ rest
        ≡ carried tx.id (rt.accepted s.out) ++ sent_by reads
    pub unsent : Unsent r.1 rest r.2

  -- The bytes that the uplink puts on the link are the front of what the client sent, in order and once
  -- each; an uplink that waits for the client, or that the client has ended, has put all of them there,
  -- and one that waits for credit has left exactly the rest of its chunk and what follows.
  pub uplink-Carried :
      (s : MuxSession rt) (tx : Half) (reads : List Upload) → Carried s tx reads (uplink s tx reads)
  unfolding uplink
  uplink-Carried s tx [] = record { rest = []; joined = refl; unsent = refl }
  uplink-Carried s tx (unreadable e ∷ more) = record { rest = []; joined = refl; unsent = refl }
  uplink-Carried s tx (filled [] ∷ more) = record { rest = []; joined = refl; unsent = refl }
  uplink-Carried s tx (filled (x ∷ xs) ∷ more) = elim (Progress-cases p) [
    | inl q ↦
        let w = flow q in
        let ih = uplink-Carried s' tx more in
        rw (q, uplink)
          (record {
            rest = ih.rest;
            joined =
                ih.joined
                ∙ ap (λ r. carried tx.id (rt.accepted s'.out) ++ (r ++ sent_by more)) (sym w.ends.0)
                ∙ sent_part law s s' tx (x ∷ xs) done (sent_by more) w;
            unsent = ih.unsent;
          })
    | inr (inl q) ↦
        let w = flow q in
        rw (q, uplink)
          (record {
            rest = w.rest ++ sent_by more;
            joined = sent_part law s s' tx (x ∷ xs) broken (sent_by more) w;
            unsent = tt;
          })
    | inr (inr (inl q)) ↦ absurd (flow q).ends
    | inr (inr (inr (left, q))) ↦
        let w = flow q in
        rw (q, uplink)
          (record {
            rest = w.rest ++ sent_by more;
            joined = sent_part law s s' tx (x ∷ xs) (parked left) (sent_by more) w;
            unsent = ap (λ l. l ++ sent_by more) w.ends.0;
          })
  ]
    where
      s' : MuxSession rt
      s' = (send s tx (x ∷ xs)).0

      p : Progress
      p = (send s tx (x ∷ xs)).1

      flow : {o : Progress} → p ≡ o → Flow law s tx (x ∷ xs) s' o
      flow q = subst (λ o. Flow law s tx (x ∷ xs) s' o) q (send-Flow law s tx (x ∷ xs))
