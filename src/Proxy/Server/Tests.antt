-- ===== src/Proxy/Server/Tests.antt =====
-- src/lib.rs: a bridge that proves a key, and one that proves it again.
use dsh_proxy.Common.{refl, [], ◌∷◌, replicate, lookup, arith}
use dsh_proxy.Common.Bytes.{Bytes}
use dsh_proxy.Proxy.Admit.{default, proved, run_edge, serve}
use dsh_proxy.Proxy.Slots.{claimed, claim}
use dsh_proxy.Proxy.Server.{
  Task, arrived, permitted, handshaking, Server, run_up, acquire, advance, arrives, goes_on, Reach,
  initially, later,
}
use dsh_proxy.Proxy.Server.Held.{Held, Reach-Held}

abbrev preamble : Bytes
preamble = b'D' ∷ b'S' ∷ b'H' ∷ b'B' ∷ 1 ∷ replicate 32 0

abbrev both : Server
both = record (run_up default) { tasks = arrived 7 ∷ arrived 8 ∷ [] }

both-Reach : Reach default both
unfolding run_edge serve
both-Reach =
    later (later initially (arrives (run_up default) preamble 8 refl))
      (arrives (record (run_up default) { tasks = arrived 8 ∷ [] }) preamble 7 refl)

-- The first task goes on.
abbrev next : Server → Task → Server
next s t = advance default s [] (arrived 8 ∷ []) t (proved 5)

abbrev up_at_7 : Server
up_at_7 = next (next (next both (arrived 7)) (permitted 7)) (handshaking 7)

up_at_7-Reach : Reach default up_at_7
unfolding advance acquire claimed claim lookup
up_at_7-Reach =
    later
      (later (later both-Reach (goes_on both [] (arrived 8 ∷ []) (arrived 7) (proved 5) refl))
        (goes_on (next both (arrived 7)) [] (arrived 8 ∷ []) (permitted 7) (proved 5) refl))
      (goes_on (next (next both (arrived 7)) (permitted 7)) [] (arrived 8 ∷ []) (handshaking 7)
        (proved 5) refl)

Reach-Held_example : Held default up_at_7
Reach-Held_example = Reach-Held default (omega arith) up_at_7 up_at_7-Reach
