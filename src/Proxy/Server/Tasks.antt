-- ===== src/Proxy/Server/Tasks.antt =====
-- src/lib.rs: what the tasks for bridges hold, one by one and together.
use dsh_proxy.Common.{ℕ, ◌+◌, ◌≤◌, ◌≡◌, refl, ap, List, [], ◌∷◌, ◌++◌, if◌then◌else◌, ◌==◌, arith}
use dsh_proxy.Proxy.Server.{
  Task, arrived, permitted, handshaking, linked, leaving, half_gone, releasing, ended,
}

abbrev pub sum : (Task → ℕ) → List Task → ℕ
sum w [] = 0
sum w (t ∷ ts) = w t + sum w ts

-- What a task holds: the permit, a slot of an address, a half-done drop of such a slot, a session.
abbrev pub permit_of : Task → ℕ
permit_of (arrived ip) = 0
permit_of (permitted ip) = 1
permit_of (handshaking ip) = 1
permit_of (linked ip g) = 1
permit_of (leaving ip) = 1
permit_of (half_gone ip) = 1
permit_of releasing = 1
permit_of ended = 0

abbrev pub slot_of : ℕ → Task → ℕ
slot_of j (arrived ip) = 0
slot_of j (permitted ip) = 0
slot_of j (handshaking ip) = if j == ip then 1 else 0
slot_of j (linked ip g) = if j == ip then 1 else 0
slot_of j (leaving ip) = if j == ip then 1 else 0
slot_of j (half_gone ip) = 0
slot_of j releasing = 0
slot_of j ended = 0

abbrev pub drop_of : ℕ → Task → ℕ
drop_of j (arrived ip) = 0
drop_of j (permitted ip) = 0
drop_of j (handshaking ip) = 0
drop_of j (linked ip g) = 0
drop_of j (leaving ip) = 0
drop_of j (half_gone ip) = if j == ip then 1 else 0
drop_of j releasing = 0
drop_of j ended = 0

abbrev pub link_of : ℕ → Task → ℕ
link_of h (arrived ip) = 0
link_of h (permitted ip) = 0
link_of h (handshaking ip) = 0
link_of h (linked ip g) = if h == g then 1 else 0
link_of h (leaving ip) = 0
link_of h (half_gone ip) = 0
link_of h releasing = 0
link_of h ended = 0

pub sum-append :
    (w : Task → ℕ) (xs ys : List Task) (t : Task) → sum w (xs ++ (t ∷ ys)) ≡ w t + sum w (xs ++ ys)
sum-append w [] ys t = refl
sum-append w (x ∷ xs) ys t = omega (arith, sum-append w xs ys t)

-- One task among others has become another.
pub turned :
    (w : Task → ℕ) (ts xs ys : List Task) (t t' : Task)
    → ts ≡ xs ++ (t ∷ ys)
    → sum w (xs ++ (t' ∷ ys)) + w t ≡ sum w ts + w t'
turned w ts xs ys t t' e = omega (arith, ap (sum w) e, sum-append w xs ys t, sum-append w xs ys t')

pub sum_le : (w w' : Task → ℕ) (ts : List Task) → ((t : Task) → w t ≤ w' t) → sum w ts ≤ sum w' ts
sum_le w w' [] h = omega arith
sum_le w w' (t ∷ ts) h = omega (arith, h t, sum_le w w' ts h)

pub drop_of_le : (ip : ℕ) (t : Task) → drop_of ip t ≤ permit_of t
drop_of_le j (arrived ip) = omega arith
drop_of_le j (permitted ip) = omega arith
drop_of_le j (handshaking ip) = omega arith
drop_of_le j (linked ip g) = omega arith
drop_of_le j (leaving ip) = omega arith
drop_of_le j (half_gone ip) = ground arith
drop_of_le j releasing = omega arith
drop_of_le j ended = omega arith

pub slot_of_le : (ip : ℕ) (t : Task) → slot_of ip t ≤ permit_of t
slot_of_le j (arrived ip) = omega arith
slot_of_le j (permitted ip) = omega arith
slot_of_le j (handshaking ip) = ground arith
slot_of_le j (linked ip g) = ground arith
slot_of_le j (leaving ip) = ground arith
slot_of_le j (half_gone ip) = omega arith
slot_of_le j releasing = omega arith
slot_of_le j ended = omega arith

pub link_of_le : (g : ℕ) (t : Task) → link_of g t ≤ permit_of t
link_of_le g (arrived ip) = omega arith
link_of_le g (permitted ip) = omega arith
link_of_le g (handshaking ip) = omega arith
link_of_le g (linked ip h) = ground arith
link_of_le g (leaving ip) = omega arith
link_of_le g (half_gone ip) = omega arith
link_of_le g releasing = omega arith
link_of_le g ended = omega arith
