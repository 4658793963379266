-- ===== src/Proxy/Tests.antt =====
-- src/lib.rs at concrete inputs.
use dsh_proxy.Common.Bytes.{Bytes}
use dsh_proxy.Common.{
  Bool, ◌++◌, ◌-◌, take, length, ℕ, ◌≡◌, refl, [], ◌∷◌, true, false, arith, put, lookup, erase, ltb,
  if◌then◌else◌,
}
use dsh_proxy.Proxy.Slots.{
  Slots, no_slots, entry_or_zero, claim, claimed, count_down, half_dropped, reclaim, dropped,
  Counted, Reach-Counted,
}
use dsh_proxy.Proxy.Slots
use dsh_proxy.Proxy.Admit.{Gate, default, proved, serve_bridge}
use dsh_proxy.Proxy.Admit.Balance.{serve_bridge_balanced}
use dsh_proxy.Proxy.Splice.{Writer, downlink}
use dsh_proxy.Proxy.Splice.Returned.{Returned, downlink-Returned}
use dsh_proxy.Mux.Tests.Machine.{machine, lawful}
use dsh_proxy.Mux.Ops.{start}
use dsh_proxy.Proxy.Routes.{
  Registry, register, link_down, remove_own, no_links, Routed, up, displaced, Reach-Routed,
}
use dsh_proxy.Proxy.Routes

abbrev two_claims : Slots
two_claims = claimed 2 (claimed 2 no_slots 7) 7

two_claims-Reach : Slots.Reach 2 two_claims
two_claims-Reach =
    Slots.Reach.later (Slots.Reach.later Slots.Reach.initially (Slots.Step.claims no_slots 7))
      (Slots.Step.claims (claimed 2 no_slots 7) 7)

-- One of the two guards is dropped; the entry stays for the other.
abbrev one_left : Slots
one_left = dropped (half_dropped two_claims 7) 7

one_left-Reach : Slots.Reach 2 one_left
unfolding claimed claim put lookup erase
one_left-Reach =
    Slots.Reach.later
      (Slots.Reach.later two_claims-Reach (Slots.Step.begins_drop two_claims 7 (omega arith)))
      (Slots.Step.ends_drop (half_dropped two_claims 7) 7 (omega arith))

Reach-Counted_example : Counted 2 7 one_left
Reach-Counted_example = Reach-Counted 2 one_left (omega arith) one_left-Reach 7

-- The link 0 has proved the key 5, and the link 1 proves it again.
abbrev first_up : Registry
first_up = register no_links 5 0

first_up-Reach : Routes.Reach first_up
first_up-Reach = Routes.Reach.later Routes.Reach.initially (Routes.Step.registers no_links 5 0 refl)

abbrev taken_over : Registry
taken_over = link_down (register first_up 5 1) 0

taken_over-Reach : Routes.Reach taken_over
unfolding register remove_own put lookup erase
taken_over-Reach =
    Routes.Reach.later (Routes.Reach.later first_up-Reach (Routes.Step.registers first_up 5 1 refl))
      (Routes.Step.ends_displaced (register first_up 5 1) 0 refl)

Reach-Routed_example : Routed taken_over
Reach-Routed_example = Reach-Routed taken_over taken_over-Reach

-- A proxy with room for three links, one of them held by the address 7.
abbrev gate : Gate
gate = record { permits = 2; table = (7, 1) ∷ [] }

serve_bridge_balanced_example :
    ((serve_bridge default gate 7 (proved 5)).0.permits ≡ 2)
    × ((j : ℕ)
        → entry_or_zero j (serve_bridge default gate 7 (proved 5)).0.table
          ≡ entry_or_zero j gate.table)
unfolding lookup
serve_bridge_balanced_example = serve_bridge_balanced default gate 7 (proved 5) (refl, tt)

-- A client that takes two bytes and no more, and a part of what does not fit.
abbrev write : Bytes → Bytes → Bytes × Bool
write w b = if ltb (length (w ++ b)) 3 then (w ++ b, true) else (w ++ take (2 - length w) b, false)

write_whole : (w w' b : Bytes) → write w b ≡ (w', true) → w' ≡ w ++ b
write_whole w w' b e = ground arith

write_part : (w w' b : Bytes) → write w b ≡ (w', false) → (n : ℕ) × (w' ≡ w ++ take n b)
write_part w w' b e = (2 - length w, ground arith)

abbrev brief_client : Writer Bytes
brief_client = record {
  write_all = write;
  written = λ w. w;
  complete = write_whole;
  partial = write_part;
}

downlink-Returned_example :
    Returned brief_client
      (start {rt = machine} (record { frames = []; alive = true }) 1)
      (record { id = 1; at = 0 })
      []
      131071
      ((5 ∷ []) ∷ (6 ∷ 7 ∷ []) ∷ [])
      (downlink brief_client
        (start {rt = machine} (record { frames = []; alive = true }) 1)
        (record { id = 1; at = 0 })
        []
        131071
        ((5 ∷ []) ∷ (6 ∷ 7 ∷ []) ∷ []))
downlink-Returned_example =
    downlink-Returned brief_client lawful (start (record { frames = []; alive = true }) 1)
      (record { id = 1; at = 0 }) [] 131071 ((5 ∷ []) ∷ (6 ∷ 7 ∷ []) ∷ []) (omega arith)
      (omega arith, (omega arith, tt))
