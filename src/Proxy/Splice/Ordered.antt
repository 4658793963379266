-- ===== src/Proxy/Splice/Ordered.antt =====
-- src/lib.rs: the bytes that the downlink of `serve_client` writes.
use dsh_proxy.Common.{
  ℕ, ◌≡◌, refl, sym, ap, ◌∙◌, List, [], ◌∷◌, ◌++◌, take, drop, append_assoc, take-append-drop,
  Bool-cases, inl, inr, true, false, leb,
}
use dsh_proxy.Common.Bytes.{Bytes}
use dsh_proxy.Mux.Runtime.{Runtime}
use dsh_proxy.Mux.Session.{Half, MuxSession}
use dsh_proxy.Mux.Ops.{grant}
use dsh_proxy.Proxy.Splice.{
  Writer, Ending, drained, unwritable, unlinked, grant_threshold, add_pending, Downlink, downlink,
}
use mathlib.Core.List.{flatten}

-- What an ending says of the bytes that the client did not get.
abbrev Unwritten : Ending → Bytes → Type 0
Unwritten drained rest = rest ≡ []
Unwritten unwritable rest = Unit {0}
Unwritten unlinked rest = Unit {0}

module _ {rt : Runtime} {W : Type 0} (client : Writer W) where
  open client use {write_all, written}

  record Ordered (w : W) (chunks : List Bytes) (d : Downlink rt W) : Type 0 where
    pub rest : Bytes
    pub joined : written d.writer ++ rest ≡ written w ++ flatten chunks
    pub unwritten : Unwritten d.ending rest

  -- A chunk that was written whole, before a run that goes on as `v` says.
  behind :
      (w : W) (chunk : Bytes) (chunks : List Bytes) (d : Downlink rt W)
      → (write_all w chunk).1 ≡ true
      → Ordered (write_all w chunk).0 chunks d
      → Ordered w (chunk ∷ chunks) d
  unfolding flatten
  behind w chunk chunks d e v = record {
    rest = v.rest;
    joined =
        v.joined
        ∙ ap (λ l. l ++ flatten chunks)
            (client.complete w _ chunk (ap (λ b. ((write_all w chunk).0, b)) e))
        ∙ append_assoc (written w) chunk (flatten chunks);
    unwritten = v.unwritten;
  }

  -- A chunk that the client took a part of.
  torn :
      (s : MuxSession rt) (w : W) (owed : ℕ) (chunk : Bytes) (chunks : List Bytes)
      → (write_all w chunk).1 ≡ false
      → Ordered w (chunk ∷ chunks) (record {
        session = s;
        writer = (write_all w chunk).0;
        pending = owed;
        ending = unwritable;
      })
  unfolding flatten
  torn s w owed chunk chunks e =
      let (n, grown) = client.partial w _ chunk (ap (λ b. ((write_all w chunk).0, b)) e) in
      record {
        rest = drop n chunk ++ flatten chunks;
        joined =
            ap (λ l. l ++ (drop n chunk ++ flatten chunks)) grown
            ∙ append_assoc (written w) (take n chunk) (drop n chunk ++ flatten chunks)
            ∙ ap (λ l. written w ++ l)
                (sym (append_assoc (take n chunk) (drop n chunk) (flatten chunks))
                  ∙ ap (λ l. l ++ flatten chunks) (take-append-drop n chunk));
        unwritten = tt;
      }

  -- The bytes that the client gets are the front of what the bridge sent, in order and once each, and all
  -- of it where the loop ends because the bridge has closed the stream, whatever is owed to the bridge.
  downlink-Ordered :
      (s : MuxSession rt) (tx : Half) (w : W) (owed : ℕ) (chunks : List Bytes)
      → Ordered w chunks (downlink client s tx w owed chunks)
  unfolding downlink flatten
  downlink-Ordered s tx w owed [] = record { rest = []; joined = refl; unwritten = refl }
  downlink-Ordered s tx w owed (chunk ∷ chunks) =
      let p = add_pending owed chunk in
      let w' = (write_all w chunk).0 in
      elim (Bool-cases (write_all w chunk).1) [
        | inr failed ↦ rw (failed, downlink) (torn s w owed chunk chunks failed)
        | inl ok ↦ elim (Bool-cases (leb grant_threshold p)) [
          | inr below ↦
              rw (ok, below, downlink)
                (behind w chunk chunks _ ok (downlink-Ordered s tx w' p chunks))
          | inl enough ↦ elim (Bool-cases (grant s tx p).1) [
            | inr lost ↦
                rw (ok, enough, lost, downlink)
                  (behind w chunk chunks _ ok
                    (record { rest = flatten chunks; joined = refl; unwritten = tt }))
            | inl sent ↦
                rw (ok, enough, sent, downlink)
                  (behind w chunk chunks _ ok (downlink-Ordered (grant s tx p).0 tx w' 0 chunks))
          ]
        ]
      ]
