-- ===== src/Proxy/Server/Advance.antt =====
-- src/lib.rs: the links of the tasks for bridges, and every step of a task.
use dsh_proxy.Common.{ℕ, ◌+◌, ◌<◌, ◌≡◌, refl, ap, List, ◌∷◌, ◌++◌, arith}
use dsh_proxy.Proxy.Admit.{Limits, Proof, stalled, failed, proved}
use dsh_proxy.Proxy.Routes.{up, displaced, register, shut_down, Reach-Routed}
use dsh_proxy.Proxy.Routes
use dsh_proxy.Proxy.Server.{
  Task, arrived, permitted, handshaking, linked, leaving, half_gone, releasing, ended, Server,
  advance,
}
use dsh_proxy.Proxy.Server.Tasks.{sum, permit_of, slot_of, drop_of, link_of, sum-append, turned}
use dsh_proxy.Proxy.Server.Links.{alive, alive_once, ended_link, register_alive, register_unborn}
use dsh_proxy.Proxy.Server.Sound.{
  Sound, plain, acquire-Sound, claims-Sound, half_drops-Sound, drops-Sound,
}

module _ (limits : Limits) (s : Server) (v : Sound limits s) (xs ys : List Task) where
  -- A link that has proved its key. The link that it displaces was up.
  proves-Sound :
      (ip key : ℕ)
      → s.tasks ≡ xs ++ (handshaking ip ∷ ys)
      → Sound limits (advance limits s xs ys (handshaking ip) (proved key))
  unfolding advance register
  proves-Sound ip key e =
      let fresh = v.unseen s.fresh (omega arith) in
      let table = Reach-Routed s.registry v.routed in
      let t' = linked ip s.fresh in
      record {
        permits = omega (arith, v.permits, turned permit_of s.tasks xs ys (handshaking ip) t' e);
        live = λ j. omega (arith, v.live j, turned (slot_of j) s.tasks xs ys (handshaking ip) t' e);
        dropping = λ j.
            omega (arith, v.dropping j, turned (drop_of j) s.tasks xs ys (handshaking ip) t' e);
        links = λ g.
            let was = v.links g in
            let now = turned (link_of g) s.tasks xs ys (handshaking ip) t' e in
            let more = register_alive s.registry key s.fresh g fresh table in ground arith;
        unseen = λ g h.
            register_unborn s.registry key s.fresh g table (v.unseen g (omega (arith, h)))
              (λ q. absurd (omega (arith, h, q)));
        counted = v.counted;
        routed = Routes.Reach.later v.routed (Routes.Step.registers s.registry key s.fresh fresh);
      }

  link_ends-Sound :
      (ip g : ℕ) (p : Proof)
      → s.tasks ≡ xs ++ (linked ip g ∷ ys)
      → Sound limits (advance limits s xs ys (linked ip g) p)
  unfolding advance
  link_ends-Sound ip g p e =
      let self : link_of g (linked ip g) ≡ 1 = ground arith in
      let lives : 0 < alive (s.registry.phase g) = omega (
        arith,
        v.links g,
        ap (sum (link_of g)) e,
        sum-append (link_of g) xs ys (linked ip g),
        self,
      ) in
      record {
        permits =
            omega (arith, v.permits, turned permit_of s.tasks xs ys (linked ip g) (leaving ip) e);
        live = λ j.
            omega (arith, v.live j, turned (slot_of j) s.tasks xs ys (linked ip g) (leaving ip) e);
        dropping = λ j.
            omega
              (arith, v.dropping j, turned (drop_of j) s.tasks xs ys (linked ip g) (leaving ip) e);
        links = λ h.
            let was = v.links h in
            let now = turned (link_of h) s.tasks xs ys (linked ip g) (leaving ip) e in
            let alone = v.links g in
            ground (
              arith,
              sum-append (link_of g) xs ys (linked ip g),
              ap (sum (link_of g)) e,
              lives,
              alive_once (s.registry.phase g) lives,
            );
        unseen = λ h q. let was = v.unseen h q in ground (arith, lives);
        counted = v.counted;
        routed = Routes.Reach.later v.routed (ended_link s.registry g lives);
      }

  pub shuts-Sound :
      (g : ℕ)
      → s.registry.phase g ≡ displaced
      → Sound limits (record s { registry = shut_down s.registry g })
  shuts-Sound g e = record {
    permits = v.permits;
    live = v.live;
    dropping = v.dropping;
    links = λ h. let was = v.links h in ground arith;
    unseen = λ h q. let was = v.unseen h q in ground arith;
    counted = v.counted;
    routed = Routes.Reach.later v.routed (Routes.Step.shuts s.registry g e);
  }

  pub arrives-Sound : (ip : ℕ) → Sound limits (record s { tasks = arrived ip ∷ s.tasks })
  arrives-Sound ip = record {
    permits = omega (arith, v.permits);
    live = λ j. omega (arith, v.live j);
    dropping = λ j. omega (arith, v.dropping j);
    links = λ g. omega (arith, v.links g);
    unseen = v.unseen;
    counted = v.counted;
    routed = v.routed;
  }

  pub advance-Sound :
      (t : Task) (p : Proof) → s.tasks ≡ xs ++ (t ∷ ys) → Sound limits (advance limits s xs ys t p)
  unfolding advance
  advance-Sound (arrived ip) p e = acquire-Sound limits s v xs ys ip s.permits e refl
  advance-Sound (permitted ip) p e = claims-Sound limits s v xs ys ip p e
  advance-Sound (handshaking ip) stalled e =
      plain limits s v xs ys (handshaking ip) (leaving ip) s.permits e refl (λ j. refl) (λ j. refl)
        (λ j. refl)
  advance-Sound (handshaking ip) failed e =
      plain limits s v xs ys (handshaking ip) (leaving ip) s.permits e refl (λ j. refl) (λ j. refl)
        (λ j. refl)
  advance-Sound (handshaking ip) (proved key) e = proves-Sound ip key e
  advance-Sound (linked ip g) p e = link_ends-Sound ip g p e
  advance-Sound (leaving ip) p e = half_drops-Sound limits s v xs ys ip p e
  advance-Sound (half_gone ip) p e = drops-Sound limits s v xs ys ip p e
  advance-Sound releasing p e =
      plain limits s v xs ys releasing ended (s.permits + 1) e (omega arith) (λ j. refl) (λ j. refl)
        (λ j. refl)
  advance-Sound ended p e = v
