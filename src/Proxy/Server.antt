-- ===== src/Proxy/Server.antt =====
-- src/lib.rs: the tasks that `run_edge` spawns for bridges, as they run beside one another over the
-- permits of the process, the slots of the addresses and the table of routes. The session of a link
-- stands as the number of its `Arc`.
pub mod Tasks
pub mod Links
pub mod Sound
pub mod Advance
pub mod Held
mod Tests
use dsh_proxy.Common.{ℕ, zero, suc, ◌+◌, ◌≡◌, List, [], ◌∷◌, ◌++◌, if◌then◌else◌, ◌==◌}
use dsh_proxy.Common.Bytes.{Bytes}
use dsh_proxy.Proxy.Admit.{Limits, Proof, stalled, failed, proved, bridge, run_edge}
use dsh_proxy.Proxy.Slots.{Slots, claim, claimed, half_dropped, dropped, no_slots}
use dsh_proxy.Proxy.Routes.{Registry, displaced, register, shut_down, link_down, no_links}

-- Where a task is: before the permit; with it; with the slot too, in the handshake; with a link; its link
-- or its handshake over, its slot about to be dropped; in the middle of that drop; with the permit alone;
-- at its end.
pub data Task : Type 0 where
  arrived permitted handshaking : ℕ → Task
  linked : ℕ → ℕ → Task
  leaving half_gone : ℕ → Task
  releasing ended : Task

pub record Server : Type 0 where
  pub permits : ℕ
  pub slots : Slots
  pub registry : Registry
  pub fresh : ℕ
  pub tasks : List Task

abbrev pub run_up : Limits → Server
run_up limits = record {
  permits = limits.max_bridges;
  slots = no_slots;
  registry = no_links;
  fresh = 0;
  tasks = [];
}

module _ (limits : Limits) (s : Server) (xs ys : List Task) where
  abbrev pub becomes : Task → Server
  becomes t = record s { tasks = xs ++ (t ∷ ys) }

  -- `try_acquire_owned`.
  unfoldable pub acquire : ℕ → ℕ → Server
  acquire ip zero = becomes ended
  acquire ip (suc n) = record (becomes (permitted ip)) { permits = n }

  -- The next step of a task, with what its handshake gives. The guards are dropped in the reverse of their
  -- order: the slot, in two accesses of its table, then the permit.
  unfoldable pub advance : Task → Proof → Server
  advance (arrived ip) p = acquire ip s.permits
  advance (permitted ip) p =
      let got = (claim s.slots.table ip limits.max_bridges_per_ip).1 in
      record (becomes (if got then handshaking ip else releasing)) {
        slots = claimed limits.max_bridges_per_ip s.slots ip;
      }
  advance (handshaking ip) stalled = becomes (leaving ip)
  advance (handshaking ip) failed = becomes (leaving ip)
  advance (handshaking ip) (proved key) = record (becomes (linked ip s.fresh)) {
    registry = register s.registry key s.fresh;
    fresh = suc s.fresh;
  }
  advance (linked ip g) p = record (becomes (leaving ip)) { registry = link_down s.registry g }
  advance (leaving ip) p = record (becomes (half_gone ip)) { slots = half_dropped s.slots ip }
  advance (half_gone ip) p = record (becomes releasing) { slots = dropped s.slots ip }
  advance releasing p = record (becomes ended) { permits = s.permits + 1 }
  advance ended p = s

-- A connection that begins as a bridge's does, a step of any task, or the shutdown of a session that was
-- displaced.
pub data Step (limits : Limits) : Server → Server → Type 0 where
  arrives :
      (s : Server) (first : Bytes) (ip : ℕ)
      → run_edge first ≡ bridge
      → Step limits s (record s { tasks = arrived ip ∷ s.tasks })
  goes_on :
      (s : Server) (xs ys : List Task) (t : Task) (p : Proof)
      → s.tasks ≡ xs ++ (t ∷ ys)
      → Step limits s (advance limits s xs ys t p)
  shuts :
      (s : Server) (g : ℕ)
      → s.registry.phase g ≡ displaced
      → Step limits s (record s { registry = shut_down s.registry g })

pub data Reach (limits : Limits) : Server → Type 0 where
  initially : Reach limits (run_up limits)
  later : {s s' : Server} → Reach limits s → Step limits s s' → Reach limits s'
