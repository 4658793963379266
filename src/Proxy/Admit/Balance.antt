-- ===== src/Proxy/Admit/Balance.antt =====
-- src/lib.rs: what the ceilings refuse, what a link holds, and that `serve_bridge` gives it back.
use dsh_proxy.Common.{
  ℕ, ◌+◌, ◌-◌, ◌≤◌, ◌≡◌, ◌↔◌, ◌⊎◌, refl, List, some, true, ◌&&◌, ◌==◌, if◌then◌else◌, arith, lookup,
  put, Distinct, lookup-put_self, lookup-put_ne, lookup-erase_self, lookup-erase_ne, Distinct-put,
}
use dsh_proxy.Proxy.Slots.{entry_or_zero, claim, count_down, reclaim, claim-Distinct}
use dsh_proxy.Proxy.Admit.{
  Limits, Gate, Proof, stalled, failed, proved, refused, linked, leave, handshake, admit,
  serve_bridge,
}

entry-leave :
    (g : Gate) (ip j n : ℕ)
    → Distinct g.table
    → lookup ip g.table ≡ some (n + 1)
    → entry_or_zero j (leave g ip).table ≡ (if j == ip then n else entry_or_zero j g.table)
unfolding leave count_down reclaim
entry-leave g ip j n d e =
    let at = lookup-put_self ip n g.table in
    let beside = lookup-put_ne j ip n g.table in
    let out = lookup-erase_self ip (put ip n g.table) (Distinct-put ip n g.table d) in
    let others = lookup-erase_ne j ip (put ip n g.table) in ground arith

-- What a claim does to the table: the entry of its own address grows by one if it succeeds.
entry-claim :
    (t : List (ℕ × ℕ)) (ip most j : ℕ)
    → entry_or_zero j (claim t ip most).0
      ≡ (if j == ip && (claim t ip most).1 then entry_or_zero ip t + 1 else entry_or_zero j t)
unfolding claim
entry-claim t ip most j =
    let n = entry_or_zero ip t in
    let at = lookup-put_self ip n t in
    let at' = lookup-put_self ip (n + 1) t in
    let beside = lookup-put_ne j ip n t in
    let beside' = lookup-put_ne j ip (n + 1) t in ground arith

-- A bridge is refused exactly if the process is full or its address holds its share, whatever its
-- handshake would give.
admit-refused :
    (limits : Limits) (g : Gate) (ip : ℕ) (proof : Proof)
    → (admit limits g ip proof).1 ≡ refused
      ↔ ((g.permits ≡ 0) ⊎ (limits.max_bridges_per_ip ≤ entry_or_zero ip g.table))
unfolding admit claim
admit-refused limits g ip stalled = unfold handshake in (λ e. ground arith, λ e. ground arith)
admit-refused limits g ip failed = unfold handshake in (λ e. ground arith, λ e. ground arith)
admit-refused limits g ip (proved key) = unfold handshake in (λ e. ground arith, λ e. ground arith)

-- A bridge that has a link holds one permit of the process and one slot of its address, and no slot
-- of another.
pub admit-linked :
    (limits : Limits) (g : Gate) (ip key : ℕ) (proof : Proof)
    → (admit limits g ip proof).1 ≡ linked key
    → ((admit limits g ip proof).0.permits + 1 ≡ g.permits)
      × ((j : ℕ)
          → entry_or_zero j (admit limits g ip proof).0.table
            ≡ (if j == ip then entry_or_zero ip g.table + 1 else entry_or_zero j g.table))
unfolding admit handshake
admit-linked limits g ip key stalled e = absurd (ground arith)
admit-linked limits g ip key failed e = absurd (ground arith)
admit-linked limits g ip key (proved k) e = (
  ground arith,
  λ j. let grown = entry-claim g.table ip limits.max_bridges_per_ip j in ground arith,
)

claim-lookup :
    (t : List (ℕ × ℕ)) (ip most : ℕ)
    → (claim t ip most).1 ≡ true
    → lookup ip (claim t ip most).0 ≡ some (entry_or_zero ip t + 1)
unfolding claim
claim-lookup t ip most got = let at = lookup-put_self ip (entry_or_zero ip t + 1) t in ground arith

-- A guard claimed and dropped leaves every count as it was.
entry-leave-claim :
    (t : List (ℕ × ℕ)) (ip most j permits : ℕ)
    → Distinct t
    → (claim t ip most).1 ≡ true
    → entry_or_zero j (leave (record { permits = permits; table = (claim t ip most).0 }) ip).table
      ≡ entry_or_zero j t
entry-leave-claim t ip most j permits d got =
    let held : Gate = record { permits = permits; table = (claim t ip most).0 } in
    let back =
      entry-leave held ip j (entry_or_zero ip t) (claim-Distinct most ip t d)
        (claim-lookup t ip most got) in
    let grown = entry-claim t ip most j in ground arith

permits-leave : (g : Gate) (ip : ℕ) → (leave g ip).permits ≡ g.permits + 1
unfolding leave
permits-leave g ip = refl

-- When `serve_bridge` has ended, on whichever path, every permit of the process is back and the count
-- of every address is what it was.
pub serve_bridge_balanced :
    (limits : Limits) (g : Gate) (ip : ℕ) (proof : Proof)
    → Distinct g.table
    → ((serve_bridge limits g ip proof).0.permits ≡ g.permits)
      × ((j : ℕ)
          → entry_or_zero j (serve_bridge limits g ip proof).0.table ≡ entry_or_zero j g.table)
unfolding serve_bridge admit handshake
serve_bridge_balanced limits g ip stalled d =
    let most = limits.max_bridges_per_ip in
    let table = (claim g.table ip most).0 in
    let more = permits-leave (record { permits = g.permits - 1; table = table }) ip in
    (
      ground arith,
      λ j.
          let same = entry-claim g.table ip most j in
          let back = entry-leave-claim g.table ip most j (g.permits - 1) d in ground arith,
    )
serve_bridge_balanced limits g ip failed d =
    let most = limits.max_bridges_per_ip in
    let table = (claim g.table ip most).0 in
    let more = permits-leave (record { permits = g.permits - 1; table = table }) ip in
    (
      ground arith,
      λ j.
          let same = entry-claim g.table ip most j in
          let back = entry-leave-claim g.table ip most j (g.permits - 1) d in ground arith,
    )
serve_bridge_balanced limits g ip (proved key) d =
    let most = limits.max_bridges_per_ip in
    let table = (claim g.table ip most).0 in
    let more = permits-leave (record { permits = g.permits - 1; table = table }) ip in
    (
      ground arith,
      λ j.
          let same = entry-claim g.table ip most j in
          let back = entry-leave-claim g.table ip most j (g.permits - 1) d in ground arith,
    )
