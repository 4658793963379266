-- ===== src/Proxy/Server/Links.antt =====
-- src/lib.rs: which links of the table of routes have a task that waits for them.
use dsh_proxy.Common.{
  ℕ, ◌+◌, ◌<◌, ◌≡◌, ◌≢◌, inl, inr, refl, Option-cases, if◌then◌else◌, ◌==◌, lookup, arith,
}
use dsh_proxy.Proxy.Routes.{
  Phase, unborn, up, displaced, shut, gone, Registry, register, link_down, Routed,
}
use dsh_proxy.Proxy.Routes

abbrev pub alive : Phase → ℕ
alive unborn = 0
alive up = 1
alive displaced = 1
alive shut = 1
alive gone = 0

pub alive_once : (p : Phase) → 0 < alive p → alive p ≡ 1
alive_once unborn h = absurd (omega arith)
alive_once up h = refl
alive_once displaced h = refl
alive_once shut h = refl
alive_once gone h = absurd (omega arith)

-- A link may end in any phase in which its task waits for it.
pub ended_link : (r : Registry) (g : ℕ) → 0 < alive (r.phase g) → Routes.Step r (link_down r g)
ended_link r g h = go (r.phase g) refl h
  where
    go : (p : Phase) → r.phase g ≡ p → 0 < alive p → Routes.Step r (link_down r g)
    go unborn e k = absurd (omega arith)
    go up e k = Routes.Step.ends_up r g e
    go displaced e k = Routes.Step.ends_displaced r g e
    go shut e k = Routes.Step.ends_shut r g e
    go gone e k = absurd (omega arith)

-- A link that comes up is one more that lives; the one that it displaces goes on to live.
pub register_alive :
    (r : Registry) (k g h : ℕ)
    → r.phase g ≡ unborn
    → Routed r
    → alive ((register r k g).phase h) ≡ alive (r.phase h) + (if h == g then 1 else 0)
unfolding register
register_alive r k g h fresh v = elim (Option-cases (lookup k r.table)) [
  | inl e ↦ rw (e, register) (ground arith)
  | inr (previous, e) ↦ let was = v.alive k previous e in rw (e, register) (ground arith)
]

pub register_unborn :
    (r : Registry) (k g h : ℕ)
    → Routed r
    → r.phase h ≡ unborn
    → h ≢ g
    → (register r k g).phase h ≡ unborn
unfolding register
register_unborn r k g h v e ne = elim (Option-cases (lookup k r.table)) [
  | inl q ↦ rw (q, register) (ground arith)
  | inr (previous, q) ↦ let was = v.alive k previous q in rw (q, register) (ground arith)
]
