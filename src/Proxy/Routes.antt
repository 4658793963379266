-- ===== src/Proxy/Routes.antt =====
-- src/lib.rs: the table of routes, as `serve_bridge` keeps it. A proved key stands as a number, and a
-- session as the number of its `Arc`.
use dsh_proxy.Common.{
  ℕ, ◌≡◌, List, [], none, some, Option-cases, inl, inr, arith, ◌==◌, if◌then◌else◌, if_both, lookup,
  erase, put, Distinct, lookup-put_self, lookup-put_ne, update, lookup-erase_self, lookup-erase_ne,
  Distinct-erase, Distinct-put,
}

-- Where the task that serves a link is: not begun; waiting for the link to be done; its session taken
-- out of the table by a newer link, which is about to shut it down, or has; done.
pub data Phase : Type 0 where
  unborn up displaced shut gone : Phase

pub record Registry : Type 0 where
  pub table : List (ℕ × ℕ)
  pub phase : ℕ → Phase
  pub key : ℕ → ℕ

abbrev pub set_phase : (ℕ → Phase) → ℕ → Phase → ℕ → Phase
set_phase f g p = update f g p

-- `table.insert(bridge_key, session)`: what it displaces is to be shut down.
unfoldable pub register : Registry → ℕ → ℕ → Registry
register r k g = record {
  table = put k g r.table;
  phase = elim (lookup k r.table) [
    | none ↦ update r.phase g up
    | some previous ↦ update (update r.phase previous displaced) g up
  ];
  key = update r.key g k;
}

-- `previous.shutdown()`.
abbrev pub shut_down : Registry → ℕ → Registry
shut_down r g = record r { phase = update r.phase g shut }

-- `table.remove_if(&key, |_, current| Arc::ptr_eq(current, &session))`.
unfoldable pub remove_own : List (ℕ × ℕ) → ℕ → ℕ → List (ℕ × ℕ)
remove_own table k g = elim (lookup k table) [
  | none ↦ table
  | some current ↦ if current == g then erase k table else table
]

abbrev pub link_down : Registry → ℕ → Registry
link_down r g = record r { table = remove_own r.table (r.key g) g; phase = update r.phase g gone }

-- A link may end in any phase, displaced or not.
pub data Step : Registry → Registry → Type 0 where
  registers : (r : Registry) (k g : ℕ) → r.phase g ≡ unborn → Step r (register r k g)
  shuts : (r : Registry) (g : ℕ) → r.phase g ≡ displaced → Step r (shut_down r g)
  ends_up : (r : Registry) (g : ℕ) → r.phase g ≡ up → Step r (link_down r g)
  ends_displaced : (r : Registry) (g : ℕ) → r.phase g ≡ displaced → Step r (link_down r g)
  ends_shut : (r : Registry) (g : ℕ) → r.phase g ≡ shut → Step r (link_down r g)

abbrev pub no_links : Registry
no_links = record { table = []; phase = λ _. unborn; key = λ _. 0 }

pub data Reach : Registry → Type 0 where
  initially : Reach no_links
  later : {r r' : Registry} → Reach r → Step r r' → Reach r'

-- The table holds the links that are up, each under its key, and nothing else.
pub record Routed (r : Registry) : Type 0 where
  pub keys : Distinct r.table
  pub routed : (g : ℕ) → r.phase g ≡ up → lookup (r.key g) r.table ≡ some g
  pub alive : (k g : ℕ) → lookup k r.table ≡ some g → (r.phase g ≡ up) × (r.key g ≡ k)

register-Routed : (r : Registry) (k g : ℕ) → r.phase g ≡ unborn → Routed r → Routed (register r k g)
unfolding register
register-Routed r k g fresh v = record {
  keys = Distinct-put k g r.table v.keys;
  routed = λ i e.
      let at = lookup-put_self k g r.table in
      let beside = lookup-put_ne (r.key i) k g r.table in let was = v.routed i in ground arith;
  alive = λ j i e.
      let at = lookup-put_self k g r.table in
      let beside = lookup-put_ne j k g r.table in
      let was = v.alive j i in let was_k = v.alive k i in ground arith;
}

shut_down-Routed :
    (r : Registry) (g : ℕ) → r.phase g ≡ displaced → Routed r → Routed (shut_down r g)
shut_down-Routed r g was_up v = record {
  keys = v.keys;
  routed = λ i e. let was = v.routed i in ground arith;
  alive = λ j i e. let was = v.alive j i in ground arith;
}

remove_own-Distinct : (t : List (ℕ × ℕ)) (k g : ℕ) → Distinct t → Distinct (remove_own t k g)
unfolding remove_own
remove_own-Distinct t k g d = elim (Option-cases (lookup k t)) [
  | inl e ↦ rw (e, remove_own) d
  | inr (current, e) ↦ rw (e, remove_own) (if_both Distinct (current == g) (Distinct-erase k t d) d)
]

-- A link that is gone takes its own route out, and no other.
link_down-Routed : (r : Registry) (g : ℕ) → Routed r → Routed (link_down r g)
unfolding remove_own
link_down-Routed r g v = record {
  keys = remove_own-Distinct r.table (r.key g) g v.keys;
  routed = λ i e.
      let beside = lookup-erase_ne (r.key i) (r.key g) r.table in
      let was = v.routed i in ground arith;
  alive = λ j i e.
      let at = lookup-erase_self (r.key g) r.table v.keys in
      let beside = lookup-erase_ne j (r.key g) r.table in let was = v.alive j i in ground arith;
}

Step-Routed : (r r' : Registry) → Step r r' → Routed r → Routed r'
Step-Routed _ _ (registers r k g e) v = register-Routed r k g e v
Step-Routed _ _ (shuts r g e) v = shut_down-Routed r g e v
Step-Routed _ _ (ends_up r g e) v = link_down-Routed r g v
Step-Routed _ _ (ends_displaced r g e) v = link_down-Routed r g v
Step-Routed _ _ (ends_shut r g e) v = link_down-Routed r g v

-- In whatever order links come up, displace one another, are shut down and end, the table holds each
-- link that is up under the key that it proved, and nothing else: no link that lives and was not
-- displaced loses its route, and no route leads to a link that was displaced or is gone.
pub Reach-Routed : (r : Registry) → Reach r → Routed r
unfolding lookup
Reach-Routed _ initially = record {
  keys = tt;
  routed = λ g e. absurd (ground arith);
  alive = λ k g e. absurd (ground arith);
}
Reach-Routed _ (later {r} {r'} s t) = Step-Routed r r' t (Reach-Routed r s)

-- When a link comes up under a key that another link holds, the newer has the route and the older is
-- waiting to be shut down; when the older then ends, the newer keeps its route.
pub register_takeover :
    (r : Registry) (k old g : ℕ)
    → Reach r
    → lookup k r.table ≡ some old
    → r.phase g ≡ unborn
    → ((register r k g).phase old ≡ displaced)
      × (lookup k (register r k g).table ≡ some g)
      × (lookup k (link_down (register r k g) old).table ≡ some g)
unfolding register remove_own
register_takeover r k old g s held fresh =
    let v = (Reach-Routed r s).alive k old held in
    let at = lookup-put_self k g r.table in ground arith
