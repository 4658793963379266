-- ===== src/Proxy/Server/Held.antt =====
-- src/lib.rs: what the tasks for bridges hold together, however they run beside one another.
use dsh_proxy.Common.{
  ℕ, ◌+◌, ◌≤◌, ◌<◌, ◌≡◌, inl, inr, refl, ap, ◌∙◌, [], none, some, Option-cases, lookup, arith,
}
use dsh_proxy.Proxy.Admit.{Limits}
use dsh_proxy.Proxy.Slots.{Slots, entry_or_zero, Counted, Reach-Counted}
use dsh_proxy.Proxy.Slots
use dsh_proxy.Proxy.Routes.{Reach-Routed}
use dsh_proxy.Proxy.Routes
use dsh_proxy.Proxy.Server.{Server, Step, arrives, goes_on, shuts, Reach, initially, later}
use dsh_proxy.Proxy.Server.Tasks.{
  sum, permit_of, slot_of, drop_of, link_of, sum_le, drop_of_le, slot_of_le, link_of_le,
}
use dsh_proxy.Proxy.Server.Links.{alive}
use dsh_proxy.Proxy.Server.Sound.{Sound}
use dsh_proxy.Proxy.Server.Advance.{arrives-Sound, advance-Sound, shuts-Sound}

-- The permits that are out are those that tasks hold; the entry of an address is how many tasks hold one of
-- its slots, at most its share; a route leads to the one task that serves its link, under the key that it
-- proved; and where no task holds a permit, every permit is back and both tables are empty.
pub record Held (limits : Limits) (s : Server) : Type 0 where
  pub permits : s.permits + sum permit_of s.tasks ≡ limits.max_bridges
  pub slots :
      (ip : ℕ)
      → (entry_or_zero ip s.slots.table ≡ sum (slot_of ip) s.tasks)
        × (sum (slot_of ip) s.tasks ≤ limits.max_bridges_per_ip)
  pub routes :
      (k g : ℕ)
      → lookup k s.registry.table ≡ some g
      → (sum (link_of g) s.tasks ≡ 1) × (s.registry.key g ≡ k)
  pub empty :
      sum permit_of s.tasks ≡ 0
      → ((ip : ℕ) → lookup ip s.slots.table ≡ none) × ((k : ℕ) → lookup k s.registry.table ≡ none)

module _ (limits : Limits) (some_room : 0 < limits.max_bridges_per_ip) where
  Step-Sound : {s s' : Server} → Step limits s s' → Sound limits s → Sound limits s'
  Step-Sound (arrives s first ip e) v = arrives-Sound limits s v [] [] ip
  Step-Sound (goes_on s xs ys t p e) v = advance-Sound limits s v xs ys t p e
  Step-Sound (shuts s g e) v = shuts-Sound limits s v [] [] g e

  Reach-Sound : {s : Server} → Reach limits s → Sound limits s
  Reach-Sound initially = record {
    permits = omega arith;
    live = λ ip. refl;
    dropping = λ ip. refl;
    links = λ g. refl;
    unseen = λ g h. refl;
    counted = Slots.Reach.initially;
    routed = Routes.Reach.initially;
  }
  Reach-Sound (later r step) = Step-Sound step (Reach-Sound r)

  Sound-Held : (s : Server) → Sound limits s → Held limits s
  Sound-Held s v = record {
    permits = v.permits;
    slots = λ ip. let c = counted ip in (c.entry ∙ v.live ip, omega (arith, c.bound, v.live ip));
    routes = λ k g e.
        let (is_up, key) = (Reach-Routed s.registry v.routed).alive k g e in
        (v.links g ∙ ap alive is_up, key);
    empty = λ none_held. (no_slot none_held, no_route none_held);
  }
    where
      counted : (ip : ℕ) → Counted limits.max_bridges_per_ip ip s.slots
      counted ip = Reach-Counted limits.max_bridges_per_ip s.slots some_room v.counted ip

      no_slot : sum permit_of s.tasks ≡ 0 → (ip : ℕ) → lookup ip s.slots.table ≡ none
      no_slot h ip =
          let c = counted ip in
          let slots = sum_le (slot_of ip) permit_of s.tasks (slot_of_le ip) in
          let drops = sum_le (drop_of ip) permit_of s.tasks (drop_of_le ip) in
          let live = v.live ip in
          let dropping = v.dropping ip in let entry = c.entry in let zeros = c.zeros in ground arith

      no_route : sum permit_of s.tasks ≡ 0 → (k : ℕ) → lookup k s.registry.table ≡ none
      no_route h k = elim (Option-cases (lookup k s.registry.table)) [
        | inl e ↦ e
        | inr (g, e) ↦
            let (is_up, _) = (Reach-Routed s.registry v.routed).alive k g e in
            let links = sum_le (link_of g) permit_of s.tasks (link_of_le g) in
            absurd (omega (arith, h, links, v.links g, ap alive is_up))
      ]

  -- With a share of one bridge per address at least, in whatever order connections come, prove keys,
  -- displace one another and end, and however the steps of their tasks are interleaved: the permits that
  -- are out are those that tasks hold; the entry of an address is how many tasks hold one of its slots,
  -- at most its share; a route leads to the one task that serves its link, under the key that it proved;
  -- and where no task holds a permit, every permit is back and neither an address nor a key has an
  -- entry.
  pub Reach-Held : (s : Server) → Reach limits s → Held limits s
  Reach-Held s r = Sound-Held s (Reach-Sound r)
