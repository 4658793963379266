-- ===== src/Proxy/Admit.antt =====
-- src/lib.rs: which branch a connection takes, and the two ceilings that a bridge passes. A refused
-- connection is closed without an answer. The timeout is in milliseconds.
pub mod Balance
use dsh_proxy.Common.{
  ℕ, ◌+◌, ◌-◌, ◌≤◌, ◌<◌, ◌≡◌, ◌≢◌, ◌↔◌, ◌⊎◌, refl, List, [], ◌∷◌, length, get_or, take, Option,
  none, some, Bool, true, false, ◌&&◌, ◌==◌, leb, if◌then◌else◌, arith, lookup, erase, put,
  Distinct, lookup-put_self, lookup-put_ne, lookup-erase_self, lookup-erase_ne, Distinct-put,
  Bool-cases, inl, inr,
}
use dsh_proxy.Common.Bytes.{Bytes}
use dsh_proxy.Wire.{head_len, version, magic_bridge, max_streams_per_bridge}
use dsh_proxy.Proxy.Slots.{entry_or_zero, claim, count_down, reclaim}

pub record Limits : Type 0 where
  pub max_bridges : ℕ
  pub max_bridges_per_ip : ℕ
  pub max_streams_per_bridge : ℕ
  pub handshake_timeout : ℕ
  pub max_clients_per_ip : ℕ

abbrev pub default : Limits
default = record {
  max_bridges = 1024;
  max_bridges_per_ip = 32;
  max_streams_per_bridge = max_streams_per_bridge;
  handshake_timeout = 10000;
  max_clients_per_ip = 64;
}

-- What becomes of a connection: nothing is sent back, or it goes to the edge, or to `serve_bridge`.
pub data Branch : Type 0 where
  dropped tls bridge : Branch

-- `serve`, from the preamble on; `none` stands for a preamble that did not come in time.
unfoldable pub serve : Option Bytes → Branch
serve none = dropped
serve (some head) =
    if get_or head 4 0 == version
    then (if get_or head 0 0 == b'D'
          && get_or head 1 0 == b'S'
          && get_or head 2 0 == b'H'
          && get_or head 3 0 == b'B'
        then bridge
        else dropped)
    else dropped

-- One connection of `run_edge`: the bytes that came in time, the first of which is only looked at.
unfoldable pub run_edge : Bytes → Branch
run_edge [] = dropped
run_edge (first ∷ more) =
    if first == 0x16
    then tls
    else serve
        (if leb head_len (length (first ∷ more)) then some (take head_len (first ∷ more)) else none)

-- A connection reaches the handshake of a bridge exactly if a whole preamble came that begins with
-- the bridge's magic and the version.
run_edge-bridge :
    (a b c d v : ℕ) (rest : Bytes)
    → run_edge (a ∷ b ∷ c ∷ d ∷ v ∷ rest) ≡ bridge
      ↔ ((a ∷ b ∷ c ∷ d ∷ [] ≡ magic_bridge) × (v ≡ version) × (head_len ≤ 5 + length rest))
unfolding run_edge serve
run_edge-bridge a b c d v rest = (λ e. ground arith, λ e. ground arith)

-- The permits of the whole process, and the slots of each address.
pub record Gate : Type 0 where
  pub permits : ℕ
  pub table : List (ℕ × ℕ)

-- What the handshake under its timeout gives: a stall, an error, or the proved key.
pub data Proof : Type 0 where
  stalled failed : Proof
  proved : ℕ → Proof

-- How `serve_bridge` goes on: refused, `Ok` or an error without a link, or a link for a key.
pub data Admission : Type 0 where
  refused gave_up errored : Admission
  linked : ℕ → Admission

-- Both guards are dropped.
unfoldable pub leave : Gate → ℕ → Gate
leave g ip = record { permits = g.permits + 1; table = reclaim (count_down g.table ip) ip }

-- `serve_bridge` from the handshake on, up to where its link would start.
unfoldable pub handshake : Gate → ℕ → Proof → Gate × Admission
handshake held ip stalled = (leave held ip, gave_up)
handshake held ip failed = (leave held ip, errored)
handshake held ip (proved key) = (held, linked key)

unfoldable pub admit : Limits → Gate → ℕ → Proof → Gate × Admission
admit limits g ip proof =
    let (table, got) = claim g.table ip limits.max_bridges_per_ip in
    if g.permits == 0
    then (g, refused)
    else if got
    then handshake (record { permits = g.permits - 1; table = table }) ip proof
    else (record g { table = table }, refused)

-- The whole of `serve_bridge`: where there is a link, it is done at the end.
unfoldable pub serve_bridge : Limits → Gate → ℕ → Proof → Gate × Admission
serve_bridge limits g ip proof =
    let (g', a) = admit limits g ip proof in
    (elim a [ linked key ↦ leave g' ip | refused ↦ g' | gave_up ↦ g' | errored ↦ g' ], a)
