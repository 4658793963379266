-- ===== src/Mux/Stranded.antt =====
-- src/mux.rs: a stream whose address has left the map is out of everybody's reach but its own halves'.
-- `StreamTx::close` takes a stream out of the map and leaves its credit open.
pub mod Frames
pub mod Calls
pub mod Close
use dsh_proxy.Common.{
  ℕ, zero, suc, ◌+◌, ◌≤◌, ◌<◌, ◌≡◌, ◌≢◌, refl, sym, ap, ◌∙◌, List, [], ◌∷◌, length, All, Option,
  none, some, Option-cases, inl, inr, Bool, true, false, ◌==◌, if_both, lookup, erase, Distinct,
  lookup-erase_self, lookup-erase_ne, update_ne, arith,
}
use dsh_proxy.Common.Bytes.{Bytes}
use dsh_proxy.Frame.{Frame}
use dsh_proxy.Mux.Runtime.{Runtime, Sent, taken, full, closed}
use dsh_proxy.Mux.Session.{Half, MuxSession}
use dsh_proxy.Mux.Ops.{
  allocate, drop_state, close_credit, insert_stream, remove_stream, hang_up, post, try_post,
}
use dsh_proxy.Mux.Read.{
  Outcome, granted, reply, set_inbox, announce, settle, peer_open, peer_data, peer_window, dispatch,
}
use dsh_proxy.Wire.{kind_open, kind_data, kind_close, kind_window}

-- No entry of the map leads to the address.
abbrev pub Unmapped : ℕ → List (ℕ × ℕ) → Type 0
Unmapped at m = All (λ (p : ℕ × ℕ). p.1 ≢ at) m

pub Unmapped-erase : (at id : ℕ) (m : List (ℕ × ℕ)) → Unmapped at m → Unmapped at (erase id m)
unfolding erase
Unmapped-erase at id [] v = tt
Unmapped-erase at id ((j, a) ∷ m) (ne, v) =
    if_both (Unmapped at) (j == id) v (ne, Unmapped-erase at id m v)

pub Unmapped-lookup :
    (at id a : ℕ) (m : List (ℕ × ℕ)) → Unmapped at m → lookup id m ≡ some a → a ≢ at
unfolding lookup
Unmapped-lookup at id a [] v e = absurd (ground arith)
Unmapped-lookup at id a ((j, b) ∷ m) (ne, v) e =
    let ih = Unmapped-lookup at id a m v in ground arith

-- In a map without double keys it is enough to look every key up.
pub Distinct-Unmapped :
    (at : ℕ) (m : List (ℕ × ℕ))
    → Distinct m
    → ((j a : ℕ) → lookup j m ≡ some a → a ≢ at)
    → Unmapped at m
unfolding lookup
Distinct-Unmapped at [] d h = tt
Distinct-Unmapped at ((j, a) ∷ m) (fresh, d) h =
    (h j a (ground arith), Distinct-Unmapped at m d (λ i b e. let r = h i b in ground arith))

module _ {rt : Runtime} where
  pub record Stranded (at : ℕ) (s : MuxSession rt) : Type 0 where
    pub known : at < s.fresh
    pub unmapped : Unmapped at s.streams

  -- Still stranded, and nothing was done to what stands at the address.
  abbrev pub Left : ℕ → MuxSession rt → MuxSession rt → Type 0
  Left at s s' = Stranded at s' × (s'.heap at ≡ s.heap at)

  pub drop_state-Left :
      (at a : ℕ) (s : MuxSession rt) → a ≢ at → Stranded at s → Left at s (drop_state s a)
  unfolding drop_state
  drop_state-Left at a s ne v =
      (record { known = v.known; unmapped = v.unmapped }, update_ne s.heap a _ at (λ e. ne (sym e)))

  pub close_credit-Left :
      (at a : ℕ) (s : MuxSession rt) → a ≢ at → Stranded at s → Left at s (close_credit s a)
  unfolding close_credit
  close_credit-Left at a s ne v =
      (record { known = v.known; unmapped = v.unmapped }, update_ne s.heap a _ at (λ e. ne (sym e)))

  pub set_inbox-Left :
      (at a : ℕ) (i : rt.Inbox) (s : MuxSession rt)
      → a ≢ at
      → Stranded at s
      → Left at s (set_inbox s a i)
  unfolding set_inbox
  set_inbox-Left at a i s ne v =
      (record { known = v.known; unmapped = v.unmapped }, update_ne s.heap a _ at (λ e. ne (sym e)))

  erased :
      (at id : ℕ) (s : MuxSession rt)
      → Stranded at s
      → Stranded at (record s { streams = erase id s.streams })
  erased at id s v = record {
    known = v.known;
    unmapped = Unmapped-erase at id s.streams v.unmapped;
  }

  pub remove_stream-Left :
      (at id : ℕ) (s : MuxSession rt) → Stranded at s → Left at s (remove_stream s id)
  unfolding remove_stream
  remove_stream-Left at id s v = elim (Option-cases (lookup id s.streams)) [
    | inl e ↦ rw (e, remove_stream) (v, refl)
    | inr (a, e) ↦
        rw (e, remove_stream)
          (drop_state-Left at a (record s { streams = erase id s.streams })
            (Unmapped-lookup at id a s.streams v.unmapped e) (erased at id s v))
  ]

  pub hang_up-Left : (at id : ℕ) (s : MuxSession rt) → Stranded at s → Left at s (hang_up s id)
  unfolding hang_up
  hang_up-Left at id s v = elim (Option-cases (lookup id s.streams)) [
    | inl e ↦ rw (e, hang_up) (v, refl)
    | inr (a, e) ↦
        let ne = Unmapped-lookup at id a s.streams v.unmapped e in
        let s1 = record s { streams = erase id s.streams } in
        let (w, p) = close_credit-Left at a s1 ne (erased at id s v) in
        let (w', p') = drop_state-Left at a (close_credit s1 a) ne w in rw (e, hang_up) (w', p' ∙ p)
  ]

  pub post-Left : (at : ℕ) (s : MuxSession rt) (f : Frame) → Stranded at s → Left at s (post s f).0
  unfolding post
  post-Left at s f v = (record { known = v.known; unmapped = v.unmapped }, refl)

  pub try_post-Left :
      (at : ℕ) (s : MuxSession rt) (f : Frame) → Stranded at s → Left at s (try_post s f).0
  unfolding try_post
  try_post-Left at s f v = (record { known = v.known; unmapped = v.unmapped }, refl)
