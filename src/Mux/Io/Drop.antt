-- ===== src/Mux/Io/Drop.antt =====
-- src/mux.rs: the drop of `MuxStreamIo` gives its place on the link back.
use dsh_proxy.Common.{
  ℕ, ◌+◌, ◌≡◌, refl, sym, ap, ◌∙◌, none, some, true, ◌==◌, if_both, lookup, Distinct, update_self,
  subst,
}
use dsh_proxy.Mux.Runtime.{Runtime, Lawful}
use dsh_proxy.Mux.Session.{Channel, MuxSession}
use dsh_proxy.Mux.Ops.{close_credit, drop_state, hang_up, close_stream, try_post}
use dsh_proxy.Mux.Read.{set_inbox}
use dsh_proxy.Mux.Read.Effects.{hang_up_ends}
use dsh_proxy.Mux.Io.{MuxStreamIo, flush_credit, end_stream, drop_io}

module _ {rt : Runtime} where
  -- Two states with the same map, budget and heap.
  abbrev Alike : MuxSession rt → MuxSession rt → Type 0
  Alike s s' = (s'.streams ≡ s.streams) × (s'.budget ≡ s.budget) × (s'.heap ≡ s.heap)

  flush_credit-Alike : (s : MuxSession rt) (io : MuxStreamIo) → Alike s (flush_credit s io).0
  unfolding flush_credit try_post
  flush_credit-Alike s io =
      if_both (λ (r : MuxSession rt × MuxStreamIo). Alike s r.0) (io.credit_due == 0)
        (refl, refl, refl) (refl, refl, refl)

module _ {rt : Runtime} (law : Lawful rt) where
  hang_up-budget :
      (s : MuxSession rt) (id at : ℕ)
      → lookup id s.streams ≡ some at
      → rt.available (hang_up s id).budget ≡ rt.available s.budget + 1
  unfolding hang_up drop_state close_credit
  hang_up-budget s id at e = rw (e, hang_up) (law.available-release s.budget)

  -- Dropping a stream that is in the map, where no key stands twice, takes it out, closes its credit and
  -- returns its permit.
  pub drop_io-frees :
      (s : MuxSession rt) (io : MuxStreamIo)
      → Distinct s.streams
      → lookup io.tx.id s.streams ≡ some io.tx.at
      → let s' = drop_io s io in
        (lookup io.tx.id s'.streams ≡ none)
        × (rt.available s'.budget ≡ rt.available s.budget + 1)
        × (rt.is_closed (s'.heap io.tx.at).credit ≡ true)
  unfolding drop_io end_stream close_stream try_post set_inbox
  drop_io-frees s io d e = (
    h.0,
    hang_up-budget s1 io.tx.id io.tx.at found ∙ ap (λ b. rt.available b + 1) alike.1,
    ap (λ (c : Channel rt). rt.is_closed c.credit)
          (update_self (hang_up s1 io.tx.id).heap io.tx.at _)
        ∙ h.1,
  )
    where
      s1 : MuxSession rt
      s1 = (flush_credit s io).0

      alike : Alike s s1
      alike = flush_credit-Alike s io

      found : lookup io.tx.id s1.streams ≡ some io.tx.at
      found = ap (lookup io.tx.id) alike.0 ∙ e

      h :
          (lookup io.tx.id (hang_up s1 io.tx.id).streams ≡ none)
          × (rt.is_closed ((hang_up s1 io.tx.id).heap io.tx.at).credit ≡ true)
      h =
          let r = hang_up_ends law s1 io.tx.id io.tx.at found (subst Distinct (sym alike.0) d) in
          (r.0, r.1)
