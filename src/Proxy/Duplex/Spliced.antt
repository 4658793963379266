-- ===== src/Proxy/Duplex/Spliced.antt =====
-- src/lib.rs: both directions of a splice at once, whatever their rounds are interleaved with.
use dsh_proxy.Common.{
  ◌^◌, ◌<◌, ◌≡◌, refl, sym, ap, ◌∙◌, List, [], ◌∷◌, ◌++◌, length, append-nil, append_assoc, All,
  All-front, All-behind, ℕ, subst, arith, take,
}
use dsh_proxy.Common.Bytes.{Bytes}
use dsh_proxy.Mux.Runtime.{Runtime, Lawful}
use dsh_proxy.Mux.Session.{Half, MuxSession}
use dsh_proxy.Mux.Ops.{close_tx}
use dsh_proxy.Mux.Runs.{call, closes}
use dsh_proxy.Mux.Read.{set_inbox}
use dsh_proxy.Mux.Send.Carried.{carried}
use dsh_proxy.Proxy.Client.{Uplink, reading}
use dsh_proxy.Proxy.Client.Laws.{sent_by}
use dsh_proxy.Proxy.Splice.{Writer}
use dsh_proxy.Proxy.Duplex.{
  Duplex, Down, dropped_at, cuts_short, running, heard, up_step, down_step, give_up, Step, pushes,
  pulls, returns, others, Reach, begins, later,
}
use dsh_proxy.Proxy.Duplex.Upward.{Uploaded, call-Calm, Calm-Uploaded, up_step-Uploaded, Calm}
use dsh_proxy.Proxy.Duplex.Downward.{
  Drawn, Held, Calm-Drawn, credit_of, down_step-Drawn, dropped_at-Drawn,
}
use mathlib.Core.List.{flatten}
use dsh_proxy.Proxy.Duplex.Across.{Lifted, up_step-Held, down_step-Lifted}

flatten-append : (xs ys : List Bytes) → flatten (xs ++ ys) ≡ flatten xs ++ flatten ys
unfolding flatten
flatten-append [] ys = refl
flatten-append (x ∷ xs) ys =
    ap (λ l. x ++ l) (flatten-append xs ys) ∙ sym (append_assoc x (flatten xs) (flatten ys))

module _ {rt : Runtime} (law : Lawful rt) (tx : Half) {W : Type 0} (client : Writer W) where
  -- Since the state `d`, with these chunks taken: the client's bytes on the link and behind them those to
  -- come are what the client sends, and the client was given the chunks, with the credit for them.
  pub record Spliced (d : Duplex rt W) (chunks : List Bytes) (d' : Duplex rt W) : Type 0 where
    pub up :
        Lifted law tx client (carried tx.id (rt.accepted d.session.out) ++ sent_by d.uploads) d'
    pub down :
        Held law tx client
          (client.written d.writer)
          (credit_of law tx client d.session)
          (flatten chunks)
          d'

  quiet-Spliced :
      (d d' : Duplex rt W) (chunks : List Bytes) (s : MuxSession rt)
      → Calm law tx d'.session s
      → Spliced d chunks d'
      → Spliced d chunks (record d' { session = s })
  quiet-Spliced d d' chunks s calm v = record {
    up = Calm-Uploaded law tx _ d'.session s d'.uplink d'.uploads calm v.up;
    down = Calm-Drawn law tx client _ _ _ d'.session s d'.writer d'.downlink d'.owed calm v.down;
  }

  same_chunks :
      (d : Duplex rt W) (chunks : List Bytes) (d' : Duplex rt W)
      → Spliced d chunks d'
      → Spliced d (chunks ++ []) d'
  same_chunks d chunks d' v = subst (λ (l : List Bytes). Spliced d l d') (sym (append-nil chunks)) v

  at_first :
      (d : Duplex rt W) → d.uplink ≡ reading → d.downlink ≡ running → d.owed ≡ 0 → Spliced d [] d
  unfolding flatten
  at_first d reads runs owes = record {
    up =
        subst
          (λ (u : Uplink).
            Uploaded law tx (carried tx.id (rt.accepted d.session.out) ++ sent_by d.uploads)
              d.session u d.uploads)
          (sym reads) (record { rest = sent_by d.uploads; joined = refl; remains = refl });
    down =
        subst
          (λ (o : Down).
            Drawn law tx client (client.written d.writer) (credit_of law tx client d.session) []
              d.session d.writer o d.owed)
          (sym runs)
          (record {
            torn = [];
            wrote = refl;
            level = (refl, omega (arith, owes), omega (arith, owes));
          });
  }

  given_up :
      (d d' : Duplex rt W) (chunks : List Bytes)
      → Spliced d chunks d'
      → Spliced d chunks (give_up client tx d')
  unfolding give_up call
  given_up d d' chunks v =
      let quiet =
        quiet-Spliced d d' chunks (close_tx d'.session tx)
          (call-Calm law tx d'.session (closes tx) tt) v in
      record {
        up = record { rest = quiet.up.rest; joined = quiet.up.joined; remains = quiet.up.remains };
        down = record {
          torn = quiet.down.torn;
          wrote = quiet.down.wrote;
          level = quiet.down.level;
        };
      }

  cut :
      (d : Duplex rt W) (chunks : List Bytes) (e : Duplex rt W) (i : rt.Inbox) (b : Bytes) (w : W)
      (n : ℕ)
      → e.downlink ≡ running
      → Spliced d chunks e
      → client.written w ≡ client.written e.writer ++ take n b
      → Spliced d (chunks ++ (b ∷ [])) (dropped_at client tx e i w)
  unfolding flatten set_inbox
  cut d chunks e i b w n runs v grown = record {
    up = record { rest = v.up.rest; joined = v.up.joined; remains = v.up.remains };
    down =
        subst
          (λ (l : Bytes).
            Held law tx client (client.written d.writer) (credit_of law tx client d.session) l
              (dropped_at client tx e i w))
          (sym (flatten-append chunks (b ∷ [])))
          (dropped_at-Drawn law tx client _ _ (flatten chunks) e i b w n runs v.down grown);
  }

  Step-Spliced :
      (d : Duplex rt W) (chunks : List Bytes) {d' d'' : Duplex rt W} {new : List Bytes}
      → Step client tx new d' d''
      → Spliced d chunks d'
      → All (λ c. length c < 2 ^ 16) new
      → Spliced d (chunks ++ new) d''
  Step-Spliced d chunks (pushes e) v short = same_chunks d chunks (up_step client tx e) (record {
    up = up_step-Uploaded law tx client _ e v.up;
    down = up_step-Held law tx client _ _ _ e v.down;
  })
  Step-Spliced d chunks (pulls e here runs) v short = record {
    up = down_step-Lifted law tx client _ e v.up;
    down =
        subst
          (λ (l : Bytes).
            Held law tx client (client.written d.writer) (credit_of law tx client d.session) l
              (down_step client tx e))
          (sym (flatten-append chunks (heard client tx e)))
          (down_step-Drawn law tx client _ _ (flatten chunks) e runs v.down short);
  }
  Step-Spliced d chunks (returns e here done) v short =
      same_chunks d chunks (give_up client tx e) (given_up d e chunks v)
  Step-Spliced d chunks (cuts_short e i b w n here runs over_up next grown) v short =
      given_up d (dropped_at client tx e i w) (chunks ++ (b ∷ []))
        (cut d chunks e i b w n runs v grown)
  Step-Spliced d chunks (others e c aside) v short =
      same_chunks d chunks (record e { session = call e.session c })
        (quiet-Spliced d e chunks (call e.session c) (call-Calm law tx e.session c aside) v)

  -- If the uplink is about to read, the downlink runs and owes nothing, then whatever the rounds of the two
  -- loops, the return of `serve_client` and calls that neither send on the stream nor grant it credit are
  -- interleaved with, and however often a send or a `recv` has to wait: unless the uplink was cut off by a
  -- send that failed, the client's bytes that stand on the link, and behind them those that the uplink has
  -- read but not sent and has still to read, are at every state what the client sends, and if it was cut
  -- off the former are a front of that. If each chunk taken from the inbox is shorter than 2^16 bytes, the
  -- client was written the chunks in their order, the last one torn only if its write failed or was cut
  -- short. The credit returned since and the credit owed are together the bytes of these chunks, or, where
  -- the last one was torn or the downlink dropped, no more than the bytes that were written of them; and
  -- less than the threshold is owed while the downlink runs and where the chunks came to their end.
  pub Reach-Spliced :
      (d d' : Duplex rt W) (chunks : List Bytes)
      → d.uplink ≡ reading
      → d.downlink ≡ running
      → d.owed ≡ 0
      → Reach client tx d chunks d'
      → All (λ c. length c < 2 ^ 16) chunks
      → Spliced d chunks d'
  Reach-Spliced d d' chunks reads runs owes r short = go r short
    where
      go :
          {d' : Duplex rt W} {chunks : List Bytes}
          → Reach client tx d chunks d'
          → All (λ c. length c < 2 ^ 16) chunks
          → Spliced d chunks d'
      go begins short = at_first d reads runs owes
      go (later {taken = taken} {new = new} r step) short =
          Step-Spliced d taken step (go r (All-front _ taken new short))
            (All-behind _ taken new short)
