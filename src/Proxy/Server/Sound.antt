-- ===== src/Proxy/Server/Sound.antt =====
-- src/lib.rs: that the tables agree with what the tasks for bridges hold, step after step.
use dsh_proxy.Common.{ℕ, zero, suc, ◌+◌, ◌≤◌, ◌<◌, ◌≡◌, refl, ap, List, ◌∷◌, ◌++◌, arith}
use dsh_proxy.Proxy.Admit.{Limits, Proof}
use dsh_proxy.Proxy.Slots.{Slots, claimed}
use dsh_proxy.Proxy.Slots
use dsh_proxy.Proxy.Routes.{unborn}
use dsh_proxy.Proxy.Routes
use dsh_proxy.Proxy.Server.{
  Task, arrived, permitted, handshaking, leaving, half_gone, releasing, ended, Server, acquire,
  advance,
}
use dsh_proxy.Proxy.Server.Tasks.{sum, permit_of, slot_of, drop_of, link_of, sum-append, turned}
use dsh_proxy.Proxy.Server.Links.{alive}

pub record Sound (limits : Limits) (s : Server) : Type 0 where
  pub permits : s.permits + sum permit_of s.tasks ≡ limits.max_bridges
  pub live : (ip : ℕ) → s.slots.live ip ≡ sum (slot_of ip) s.tasks
  pub dropping : (ip : ℕ) → s.slots.dropping ip ≡ sum (drop_of ip) s.tasks
  pub links : (g : ℕ) → sum (link_of g) s.tasks ≡ alive (s.registry.phase g)
  pub unseen : (g : ℕ) → s.fresh ≤ g → s.registry.phase g ≡ unborn
  pub counted : Slots.Reach limits.max_bridges_per_ip s.slots
  pub routed : Routes.Reach s.registry

module _ (limits : Limits) (s : Server) (v : Sound limits s) (xs ys : List Task) where
  -- The task only turns, and the permits and what it holds of them change together.
  pub plain :
      (t t' : Task) (permits : ℕ)
      → s.tasks ≡ xs ++ (t ∷ ys)
      → permits + permit_of t' ≡ s.permits + permit_of t
      → ((ip : ℕ) → slot_of ip t' ≡ slot_of ip t)
      → ((ip : ℕ) → drop_of ip t' ≡ drop_of ip t)
      → ((g : ℕ) → link_of g t' ≡ link_of g t)
      → Sound limits (record s { permits = permits; tasks = xs ++ (t' ∷ ys) })
  plain t t' permits e p slot drop link = record {
    permits = omega (arith, v.permits, p, turned permit_of s.tasks xs ys t t' e);
    live = λ ip. omega (arith, v.live ip, slot ip, turned (slot_of ip) s.tasks xs ys t t' e);
    dropping =
        λ ip. omega (arith, v.dropping ip, drop ip, turned (drop_of ip) s.tasks xs ys t t' e);
    links = λ g. omega (arith, v.links g, link g, turned (link_of g) s.tasks xs ys t t' e);
    unseen = v.unseen;
    counted = v.counted;
    routed = v.routed;
  }

  pub acquire-Sound :
      (ip n : ℕ)
      → s.tasks ≡ xs ++ (arrived ip ∷ ys)
      → s.permits ≡ n
      → Sound limits (acquire limits s xs ys ip n)
  unfolding acquire
  acquire-Sound ip zero e q =
      let u = plain (arrived ip) ended s.permits e refl (λ j. refl) (λ j. refl) (λ j. refl) in
      record {
        permits = u.permits;
        live = u.live;
        dropping = u.dropping;
        links = u.links;
        unseen = u.unseen;
        counted = u.counted;
        routed = u.routed;
      }
  acquire-Sound ip (suc n) e q =
      plain (arrived ip) (permitted ip) n e (omega arith) (λ j. refl) (λ j. refl) (λ j. refl)

  pub claims-Sound :
      (ip : ℕ) (p : Proof)
      → s.tasks ≡ xs ++ (permitted ip ∷ ys)
      → Sound limits (advance limits s xs ys (permitted ip) p)
  unfolding advance claimed
  claims-Sound ip p e =
      let to_slot = turned permit_of s.tasks xs ys (permitted ip) (handshaking ip) e in
      let to_end = turned permit_of s.tasks xs ys (permitted ip) releasing e in
      record {
        permits = ground (arith, v.permits, to_slot, to_end);
        live = λ j.
            let was = v.live j in
            let with_slot = turned (slot_of j) s.tasks xs ys (permitted ip) (handshaking ip) e in
            let without = turned (slot_of j) s.tasks xs ys (permitted ip) releasing e in
            ground arith;
        dropping = λ j.
            let was = v.dropping j in
            let with_slot = turned (drop_of j) s.tasks xs ys (permitted ip) (handshaking ip) e in
            let without = turned (drop_of j) s.tasks xs ys (permitted ip) releasing e in
            ground arith;
        links = λ g.
            let was = v.links g in
            let with_slot = turned (link_of g) s.tasks xs ys (permitted ip) (handshaking ip) e in
            let without = turned (link_of g) s.tasks xs ys (permitted ip) releasing e in
            ground arith;
        unseen = v.unseen;
        counted = Slots.Reach.later v.counted (unfold claimed in Slots.Step.claims s.slots ip);
        routed = v.routed;
      }

  -- The task holds a slot.
  holds : (ip : ℕ) (t : Task) → s.tasks ≡ xs ++ (t ∷ ys) → slot_of ip t ≡ 1 → 0 < s.slots.live ip
  holds ip t e h =
      omega (arith, v.live ip, ap (sum (slot_of ip)) e, sum-append (slot_of ip) xs ys t, h)

  pub half_drops-Sound :
      (ip : ℕ) (p : Proof)
      → s.tasks ≡ xs ++ (leaving ip ∷ ys)
      → Sound limits (advance limits s xs ys (leaving ip) p)
  unfolding advance
  half_drops-Sound ip p e =
      let busy = holds ip (leaving ip) e (ground arith) in
      record {
        permits =
            omega (arith, v.permits, turned permit_of s.tasks xs ys (leaving ip) (half_gone ip) e);
        live = λ j.
            let was = v.live j in
            let now = turned (slot_of j) s.tasks xs ys (leaving ip) (half_gone ip) e in
            ground arith;
        dropping = λ j.
            let was = v.dropping j in
            let now = turned (drop_of j) s.tasks xs ys (leaving ip) (half_gone ip) e in
            ground arith;
        links = λ g.
            omega
              (arith, v.links g, turned (link_of g) s.tasks xs ys (leaving ip) (half_gone ip) e);
        unseen = v.unseen;
        counted = Slots.Reach.later v.counted (Slots.Step.begins_drop s.slots ip busy);
        routed = v.routed;
      }

  pub drops-Sound :
      (ip : ℕ) (p : Proof)
      → s.tasks ≡ xs ++ (half_gone ip ∷ ys)
      → Sound limits (advance limits s xs ys (half_gone ip) p)
  unfolding advance
  drops-Sound ip p e =
      let self : drop_of ip (half_gone ip) ≡ 1 = ground arith in
      let busy : 0 < s.slots.dropping ip = omega (
        arith,
        v.dropping ip,
        ap (sum (drop_of ip)) e,
        sum-append (drop_of ip) xs ys (half_gone ip),
        self,
      ) in
      record {
        permits =
            omega (arith, v.permits, turned permit_of s.tasks xs ys (half_gone ip) releasing e);
        live = λ j.
            let was = v.live j in
            let now = turned (slot_of j) s.tasks xs ys (half_gone ip) releasing e in ground arith;
        dropping = λ j.
            let was = v.dropping j in
            let now = turned (drop_of j) s.tasks xs ys (half_gone ip) releasing e in ground arith;
        links = λ g.
            omega (arith, v.links g, turned (link_of g) s.tasks xs ys (half_gone ip) releasing e);
        unseen = v.unseen;
        counted = Slots.Reach.later v.counted (Slots.Step.ends_drop s.slots ip busy);
        routed = v.routed;
      }
