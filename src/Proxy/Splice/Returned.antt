-- ===== src/Proxy/Splice/Returned.antt =====
-- src/lib.rs: what the downlink of `serve_client` wrote to the client and returned to the bridge when it
-- ends.
use dsh_proxy.Common.{
  ℕ, ◌+◌, ◌^◌, ◌≤◌, ◌<◌, ◌≡◌, refl, sym, ap, subst, ◌∙◌, List, [], ◌∷◌, ◌++◌, map, length, take,
  length-append, All, append-nil, append_assoc, Bool-cases, inl, inr, true, false, leb, arith,
}
use dsh_proxy.Common.Bytes.{Bytes}
use dsh_proxy.Mux.Runtime.{Runtime, Lawful}
use dsh_proxy.Mux.Session.{Half, MuxSession}
use dsh_proxy.Mux.Ops.{grant}
use mathlib.Core.List.{flatten}
use dsh_proxy.Proxy.Splice.{
  grant_threshold, Writer, Ending, drained, unwritable, unlinked, add_pending, credit_frame, total,
  Downlink, downlink, grant-accepted, grant-refused, no_overflow,
}

module _ {W : Type 0} (client : Writer W) where
  open client use {write_all, written}

  -- A write of the first of these chunks failed, with the part of it that the client took, after it had
  -- been written the bytes `before`.
  abbrev pub Torn : Bytes → W → List Bytes → Bytes → Type 0
  Torn before w' [] torn = ⊥
  Torn before w' (chunk ∷ chunks) torn =
      (w1 : W) × (n : ℕ) × (written w1 ≡ before)
      × (write_all w1 chunk ≡ (w', false))
      × (torn ≡ take n chunk)

  -- What each ending says of the chunks that were not written whole and of what is owed.
  abbrev pub Settled : Ending → Bytes → W → List Bytes → Bytes → ℕ → Type 0
  Settled drained before w' rest torn pending =
      (rest ≡ []) × (torn ≡ []) × (pending < grant_threshold)
  Settled unwritable before w' rest torn pending =
      Torn before w' rest torn × (pending < grant_threshold)
  Settled unlinked before w' rest torn pending = torn ≡ []

module _ {rt : Runtime} {W : Type 0} (client : Writer W) where
  open client use {write_all, written}

  -- The chunks that a run wrote whole and those that it did not, and the credit that it returned for the
  -- former when it began owing `owed`.
  pub record Returned (s : MuxSession rt) (tx : Half) (w : W) (owed : ℕ) (chunks : List Bytes)
      (d : Downlink rt W) : Type 0 where
    pub whole : List Bytes
    pub rest : List Bytes
    pub torn : Bytes
    pub grants : List ℕ
    pub split : whole ++ rest ≡ chunks
    pub wrote : written d.writer ≡ (written w ++ flatten whole) ++ torn
    pub sent : rt.accepted d.session.out ≡ rt.accepted s.out ++ map (credit_frame tx.id) grants
    pub large : All (λ g. grant_threshold ≤ g) grants
    pub exact : total grants + d.pending ≡ owed + length (flatten whole)
    pub settled : Settled client d.ending (written w ++ flatten whole) d.writer rest torn d.pending

  module _ (law : Lawful rt) where
    -- The client cannot be written.
    client_gone :
        (s : MuxSession rt) (tx : Half) (w : W) (owed : ℕ) (chunk : Bytes) (chunks : List Bytes)
        → owed < grant_threshold
        → (write_all w chunk).1 ≡ false
        → Returned s tx w owed (chunk ∷ chunks) (record {
          session = s;
          writer = (write_all w chunk).0;
          pending = owed;
          ending = unwritable;
        })
    unfolding total flatten
    client_gone s tx w owed chunk chunks low e =
        let failed : write_all w chunk ≡ ((write_all w chunk).0, false) =
          ap (λ b. ((write_all w chunk).0, b)) e in
        let (n, grown) = client.partial w _ chunk failed in
        let same = append-nil (written w) in
        record {
          whole = [];
          rest = chunk ∷ chunks;
          torn = take n chunk;
          grants = [];
          split = refl;
          wrote = grown ∙ ap (λ l. l ++ take n chunk) (sym same);
          sent = sym (append-nil _);
          large = tt;
          exact = omega arith;
          settled = ((w, n, sym same, failed, refl), low);
        }

    -- The bytes of a chunk that was written whole.
    wrote_whole :
        (w : W) (chunk : Bytes) (more : List Bytes)
        → (write_all w chunk).1 ≡ true
        → written (write_all w chunk).0 ++ flatten more ≡ written w ++ flatten (chunk ∷ more)
    unfolding flatten
    wrote_whole w chunk more e =
        ap (λ l. l ++ flatten more)
          (client.complete w _ chunk (ap (λ b. ((write_all w chunk).0, b)) e))
        ∙ append_assoc (written w) chunk (flatten more)

    -- The link is dead: what is owed is not returned.
    link_gone :
        (s : MuxSession rt) (tx : Half) (w : W) (owed p : ℕ) (chunk : Bytes) (chunks : List Bytes)
        → (write_all w chunk).1 ≡ true
        → (grant s tx p).1 ≡ false
        → p ≡ owed + length chunk
        → Returned s tx w owed (chunk ∷ chunks) (record {
          session = (grant s tx p).0;
          writer = (write_all w chunk).0;
          pending = p;
          ending = unlinked;
        })
    unfolding total flatten
    link_gone s tx w owed p chunk chunks e lost sum = record {
      whole = chunk ∷ [];
      rest = chunks;
      torn = [];
      grants = [];
      split = refl;
      wrote =
          sym (append-nil _) ∙ ap (λ l. l ++ []) (sym (append-nil _) ∙ wrote_whole w chunk [] e);
      sent = grant-refused client law s tx p lost ∙ sym (append-nil _);
      large = tt;
      exact = omega (arith, sum, ap length (append-nil chunk));
      settled = refl;
    }

    move_before :
        (o : Ending) (before before' : Bytes) (w' : W) (rest : List Bytes) (torn : Bytes)
        (pending : ℕ)
        → before ≡ before'
        → Settled client o before w' rest torn pending
        → Settled client o before' w' rest torn pending
    move_before o before before' w' rest torn pending e v =
        subst (λ l. Settled client o l w' rest torn pending) e v

    -- A round that only adds to what is owed, before a run that ends as `v` says.
    after_chunk :
        (s : MuxSession rt) (tx : Half) (w : W) (owed p : ℕ) (chunk : Bytes) (chunks : List Bytes)
        (d : Downlink rt W)
        → (write_all w chunk).1 ≡ true
        → p ≡ owed + length chunk
        → Returned s tx (write_all w chunk).0 p chunks d
        → Returned s tx w owed (chunk ∷ chunks) d
    unfolding flatten
    after_chunk s tx w owed p chunk chunks d e sum v =
        let front = wrote_whole w chunk v.whole e in
        record {
          whole = chunk ∷ v.whole;
          rest = v.rest;
          torn = v.torn;
          grants = v.grants;
          split = ap (λ l. chunk ∷ l) v.split;
          wrote = v.wrote ∙ ap (λ l. l ++ v.torn) front;
          sent = v.sent;
          large = v.large;
          exact = omega (arith, v.exact, sum, length-append chunk (flatten v.whole));
          settled = move_before d.ending _ _ d.writer v.rest v.torn d.pending front v.settled;
        }

    -- A round that returns what is owed.
    after_grant :
        (s : MuxSession rt) (tx : Half) (w : W) (owed p : ℕ) (chunk : Bytes) (chunks : List Bytes)
        (d : Downlink rt W)
        → (write_all w chunk).1 ≡ true
        → (grant s tx p).1 ≡ true
        → grant_threshold ≤ p
        → p ≡ owed + length chunk
        → Returned (grant s tx p).0 tx (write_all w chunk).0 0 chunks d
        → Returned s tx w owed (chunk ∷ chunks) d
    unfolding total flatten
    after_grant s tx w owed p chunk chunks d e sent enough sum v =
        let front = wrote_whole w chunk v.whole e in
        record {
          whole = chunk ∷ v.whole;
          rest = v.rest;
          torn = v.torn;
          grants = p ∷ v.grants;
          split = ap (λ l. chunk ∷ l) v.split;
          wrote = v.wrote ∙ ap (λ l. l ++ v.torn) front;
          sent =
              v.sent
              ∙ ap (λ l. l ++ map (credit_frame tx.id) v.grants)
                  (grant-accepted client law s tx p sent)
              ∙ append_assoc (rt.accepted s.out) (credit_frame tx.id p ∷ []) _;
          large = (enough, v.large);
          exact = omega (arith, v.exact, sum, length-append chunk (flatten v.whole));
          settled = move_before d.ending _ _ d.writer v.rest v.torn d.pending front v.settled;
        }

    -- If the loop begins owing less than the threshold and every chunk is shorter than 2^16 bytes: the
    -- client was written a front of the chunks whole and in order, and behind them only, if a write
    -- failed, what it took of the next chunk. The credit returned, in frames of the threshold at least,
    -- and what is still owed are together what was owed at first and the bytes of the chunks that were
    -- written whole. Those are all chunks if the inbox came to its end, and less than the threshold is
    -- owed at the end unless the link is dead.
    pub downlink-Returned :
        (s : MuxSession rt) (tx : Half) (w : W) (owed : ℕ) (chunks : List Bytes)
        → owed < grant_threshold
        → All (λ c. length c < 2 ^ 16) chunks
        → Returned s tx w owed chunks (downlink client s tx w owed chunks)
    unfolding downlink total flatten
    downlink-Returned s tx w owed [] low fit = record {
      whole = [];
      rest = [];
      torn = [];
      grants = [];
      split = refl;
      wrote = sym (append-nil _) ∙ ap (λ l. l ++ []) (sym (append-nil _));
      sent = sym (append-nil _);
      large = tt;
      exact = omega arith;
      settled = (refl, refl, low);
    }
    downlink-Returned s tx w owed (chunk ∷ chunks) low fit =
        let p = add_pending owed chunk in
        let w' = (write_all w chunk).0 in
        let sum = no_overflow client law owed chunk low fit.0 in
        elim (Bool-cases (write_all w chunk).1) [
          | inr failed ↦ rw (failed, downlink) (client_gone s tx w owed chunk chunks low failed)
          | inl fine ↦ elim (Bool-cases (leb grant_threshold p)) [
            | inr below ↦
                rw (fine, below, downlink)
                  (after_chunk s tx w owed p chunk chunks _ fine sum
                    (downlink-Returned s tx w' p chunks (ground arith) fit.1))
            | inl enough ↦ elim (Bool-cases (grant s tx p).1) [
              | inr lost ↦
                  rw (fine, enough, lost, downlink)
                    (link_gone s tx w owed p chunk chunks fine lost sum)
              | inl sent ↦
                  rw (fine, enough, sent, downlink)
                    (after_grant s tx w owed p chunk chunks _ fine sent (ground arith) sum
                      (downlink-Returned (grant s tx p).0 tx w' 0 chunks (omega arith) fit.1))
            ]
          ]
        ]
