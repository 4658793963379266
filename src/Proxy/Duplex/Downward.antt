-- ===== src/Proxy/Duplex/Downward.antt =====
-- src/lib.rs: what the client was given and what of it is credited to the bridge, at every step of a
-- splice.
use dsh_proxy.Common.{
  ℕ, ◌+◌, ◌^◌, ◌≤◌, ◌<◌, ◌≡◌, refl, sym, ap, subst, ◌∙◌, [], ◌∷◌, ◌++◌, take, drop, length,
  append-nil, append_assoc, take-append-drop, length-append, All, inl, inr, true, Bool-cases, leb,
  arith,
}
use dsh_proxy.Common.Bytes.{Bytes}
use dsh_proxy.Mux.Runtime.{Runtime, Lawful, Received, chunk, ended, waiting}
use dsh_proxy.Mux.Session.{Half, MuxSession}
use dsh_proxy.Mux.Ops.{grant}
use dsh_proxy.Mux.Read.{set_inbox}
use dsh_proxy.Proxy.Splice.{
  Writer, drained, unwritable, unlinked, grant_threshold, add_pending, credit_frame, grant-accepted,
  grant-refused, no_overflow,
}
use dsh_proxy.Proxy.Duplex.{
  Down, running, dropped, dropped_at, over, Duplex, got, owe, down_from, heard, down_step,
}
use dsh_proxy.Proxy.Duplex.Traffic.{credited, credited-append, credited-grant}
use dsh_proxy.Proxy.Duplex.Upward.{Calm}
use mathlib.Core.List.{flatten}

-- How the credit returned, what is owed and the torn part of the last chunk stand to the bytes to
-- account for.
abbrev pub Level : Down → ℕ → ℕ → Bytes → ℕ → Type 0
Level running credit owed torn all = (torn ≡ []) × (credit + owed ≡ all) × (owed < grant_threshold)
Level (over drained) credit owed torn all =
    (torn ≡ []) × (credit + owed ≡ all) × (owed < grant_threshold)
Level (over unlinked) credit owed torn all = (torn ≡ []) × (credit + owed ≡ all)
Level (over unwritable) credit owed torn all =
    (credit + owed + length torn ≤ all) × (owed < grant_threshold)
Level dropped credit owed torn all = credit + owed + length torn ≤ all

module _ {rt : Runtime} (law : Lawful rt) (tx : Half) {W : Type 0} (client : Writer W) where
  open client use {write_all, written}

  abbrev pub credit_of : MuxSession rt → ℕ
  credit_of s = credited tx.id (rt.accepted s.out)

  -- From a client that held `base` and a link that had returned `start`, with these bytes taken since:
  -- the client has them but for the torn part, and the credit stands as `Level` says.
  pub record Drawn (base : Bytes) (start : ℕ) (bytes : Bytes) (s : MuxSession rt) (w : W)
      (down : Down) (owed : ℕ) : Type 0 where
    pub torn : Bytes
    pub wrote : written w ++ torn ≡ base ++ bytes
    pub level : Level down (credit_of s) owed torn (start + length bytes)

  pub Calm-Drawn :
      (base : Bytes) (start : ℕ) (bytes : Bytes) (s s' : MuxSession rt) (w : W) (down : Down)
      (owed : ℕ)
      → Calm law tx s s'
      → Drawn base start bytes s w down owed
      → Drawn base start bytes s' w down owed
  Calm-Drawn base start bytes s s' w down owed c v = record {
    torn = v.torn;
    wrote = v.wrote;
    level = subst (λ k. Level down k owed v.torn (start + length bytes)) (sym c.credits) v.level;
  }

  module _ (base : Bytes) (start : ℕ) where
    abbrev pub Held : Bytes → Duplex rt W → Type 0
    Held bytes d = Drawn base start bytes d.session d.writer d.downlink d.owed

    one_more :
        (bytes b : Bytes) (d : Duplex rt W) → Held (bytes ++ b) d → Held (bytes ++ (b ++ [])) d
    one_more bytes b d v = subst (λ (l : Bytes). Held (bytes ++ l) d) (sym (append-nil b)) v

    granted_more :
        (s : MuxSession rt) (p : ℕ)
        → p < 2 ^ 32
        → (grant s tx p).1 ≡ true
        → credit_of (grant s tx p).0 ≡ credit_of s + p
    granted_more s p small sent =
        ap (credited tx.id) (grant-accepted client law s tx p sent)
        ∙ credited-append tx.id (rt.accepted s.out) (credit_frame tx.id p ∷ [])
        ∙ omega (arith, credited-grant tx.id p small)

    -- A chunk was written whole, and `p` is owed.
    owe-Drawn :
        (bytes : Bytes) (d : Duplex rt W) (p : ℕ)
        → d.downlink ≡ running
        → written d.writer ≡ base ++ bytes
        → credit_of d.session + p ≡ start + length bytes
        → p < 2 ^ 32
        → Held bytes (owe client tx d p)
    unfolding owe
    owe-Drawn bytes d p runs wrote even small = elim (Bool-cases (leb grant_threshold p)) [
      | inr below ↦
          rw (below, owe)
            (subst (λ (o : Down). Drawn base start bytes d.session d.writer o p) (sym runs)
              (record {
                torn = [];
                wrote = append-nil _ ∙ wrote;
                level = (refl, even, ground arith);
              }))
      | inl enough ↦ elim (Bool-cases (grant d.session tx p).1) [
        | inr lost ↦
            rw (enough, lost, owe)
              (record {
                torn = [];
                wrote = append-nil _ ∙ wrote;
                level = (
                  refl,
                  ap (λ l. credited tx.id l + p) (grant-refused client law d.session tx p lost)
                      ∙ even,
                );
              })
        | inl sent ↦
            rw (enough, sent, owe)
              (subst (λ (o : Down). Drawn base start bytes (grant d.session tx p).0 d.writer o 0)
                (sym runs)
                (record {
                  torn = [];
                  wrote = append-nil _ ∙ wrote;
                  level =
                      (refl, omega (arith, granted_more d.session p small sent, even), omega arith);
                }))
      ]
    ]

    wrote_whole :
        (w : W) (b bytes : Bytes) (torn : Bytes)
        → (write_all w b).1 ≡ true
        → torn ≡ []
        → written w ++ torn ≡ base ++ bytes
        → written (write_all w b).0 ≡ base ++ (bytes ++ b)
    wrote_whole w b bytes torn e none_torn wrote =
        client.complete w _ b (ap (λ k. ((write_all w b).0, k)) e)
        ∙ ap (λ l. l ++ b)
            (sym (append-nil (written w)) ∙ ap (λ t. written w ++ t) (sym none_torn) ∙ wrote)
        ∙ append_assoc base bytes b

    took_part :
        (w w' : W) (b bytes : Bytes) (torn : Bytes) (n : ℕ)
        → written w' ≡ written w ++ take n b
        → torn ≡ []
        → written w ++ torn ≡ base ++ bytes
        → (written w' ++ drop n b ≡ base ++ (bytes ++ b)) × (length (drop n b) ≤ length b)
    took_part w w' b bytes torn n grown none_torn wrote = (
      ap (λ l. l ++ drop n b) grown
          ∙ append_assoc (written w) (take n b) (drop n b)
          ∙ ap (λ l. written w ++ l) (take-append-drop n b)
          ∙ ap (λ l. l ++ b)
              (sym (append-nil (written w)) ∙ ap (λ t. written w ++ t) (sym none_torn) ∙ wrote)
          ∙ append_assoc base bytes b,
      omega (arith, length-append (take n b) (drop n b), ap length (take-append-drop n b)),
    )

    down_from-Drawn :
        (bytes : Bytes) (d : Duplex rt W) (r : Received)
        → d.downlink ≡ running
        → Drawn base start bytes d.session d.writer running d.owed
        → All (λ b. length b < 2 ^ 16) (got r)
        → Held (bytes ++ flatten (got r)) (down_from client tx d r)
    unfolding down_from flatten
    down_from-Drawn bytes d waiting runs v short =
        subst (λ (o : Down). Drawn base start (bytes ++ []) d.session d.writer o d.owed) (sym runs)
          (subst (λ (l : Bytes). Drawn base start l d.session d.writer running d.owed)
            (sym (append-nil bytes)) v)
    down_from-Drawn bytes d ended runs v short =
        subst (λ (l : Bytes). Drawn base start l d.session d.writer (over drained) d.owed)
          (sym (append-nil bytes)) (record { torn = v.torn; wrote = v.wrote; level = v.level })
    down_from-Drawn bytes d (chunk b) runs v short = elim (Bool-cases (write_all d.writer b).1) [
      | inl e ↦
          rw (e, down_from)
            (let w : Duplex rt W = record d { writer = (write_all d.writer b).0 } in
              let p = add_pending d.owed b in
              one_more bytes b (owe client tx w p) (
                owe-Drawn (bytes ++ b) w p runs
                  (wrote_whole d.writer b bytes v.torn e v.level.0 v.wrote)
                  (omega (
                    arith,
                    no_overflow client law d.owed b v.level.2 short.0,
                    v.level.1,
                    length-append bytes b,
                  ))
                  (omega (
                    arith,
                    no_overflow client law d.owed b v.level.2 short.0,
                    v.level.2,
                    short.0,
                  ))))
      | inr e ↦
          rw (e, down_from)
            (let w' = (write_all d.writer b).0 in
              let (n, grown) = client.partial d.writer w' b (ap (λ k. (w', k)) e) in
              let (wrote, part) = took_part d.writer w' b bytes v.torn n grown v.level.0 v.wrote in
              one_more bytes b
                (record d { writer = (write_all d.writer b).0; downlink = over unwritable })
                (record {
                  torn = drop n b;
                  wrote = wrote;
                  level = (omega (arith, v.level.1, part, length-append bytes b), v.level.2);
                }))
    ]

    pub down_step-Drawn :
        (bytes : Bytes) (d : Duplex rt W)
        → d.downlink ≡ running
        → Held bytes d
        → All (λ b. length b < 2 ^ 16) (heard client tx d)
        → Held (bytes ++ flatten (heard client tx d)) (down_step client tx d)
    unfolding down_step set_inbox
    down_step-Drawn bytes d runs v short =
        let (i, r) = rt.poll_recv (d.session.heap tx.at).inbox in
        let u = subst (λ (o : Down). Drawn base start bytes d.session d.writer o d.owed) runs v in
        down_from-Drawn bytes (record d { session = set_inbox d.session tx.at i }) r runs
          (record { torn = u.torn; wrote = u.wrote; level = u.level }) short

    pub dropped_at-Drawn :
        (bytes : Bytes) (d : Duplex rt W) (i : rt.Inbox) (b : Bytes) (w : W) (n : ℕ)
        → d.downlink ≡ running
        → Held bytes d
        → written w ≡ written d.writer ++ take n b
        → Held (bytes ++ (b ++ [])) (dropped_at client tx d i w)
    unfolding set_inbox
    dropped_at-Drawn bytes d i b w n runs v grown =
        let u = subst (λ (o : Down). Drawn base start bytes d.session d.writer o d.owed) runs v in
        let (wrote, part) = took_part d.writer w b bytes u.torn n grown u.level.0 u.wrote in
        one_more bytes b (dropped_at client tx d i w) (record {
          torn = drop n b;
          wrote = wrote;
          level = omega (arith, u.level.1, part, length-append bytes b);
        })
