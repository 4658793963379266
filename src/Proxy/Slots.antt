-- ===== src/Proxy/Slots.antt =====
-- src/lib.rs: `IpSlot`, which counts the links that each peer address holds. A drop is two accesses of
-- the table, and other tasks may come between them. An address stands as a number.
use dsh_proxy.Common.{
  ℕ, ◌+◌, ◌-◌, ◌≤◌, ◌<◌, ◌≡◌, ◌≢◌, refl, List, [], none, some, Option-cases, Bool-cases, inl, inr,
  Bool, true, false, arith, leb, ltb, ◌==◌, if◌then◌else◌, lookup, erase, put, Distinct,
  lookup-put_self, lookup-put_ne, update, lookup-erase_self, lookup-erase_ne, Distinct-put,
  Distinct-erase, if_both,
}

-- The entry of an address, and 0 for an address that has none.
abbrev pub entry_or_zero : ℕ → List (ℕ × ℕ) → ℕ
entry_or_zero ip table = elim (lookup ip table) [ none ↦ 0 | some n ↦ n ]

-- `entry(ip).or_insert(0)` leaves its entry also where the claim is refused.
unfoldable pub claim : List (ℕ × ℕ) → ℕ → ℕ → List (ℕ × ℕ) × Bool
claim table ip most =
    let n = entry_or_zero ip table in
    if leb most n then (put ip n table, false) else (put ip (n + 1) table, true)

-- The first half of a drop: `*count = count.saturating_sub(1)`.
unfoldable pub count_down : List (ℕ × ℕ) → ℕ → List (ℕ × ℕ)
count_down table ip = elim (lookup ip table) [ none ↦ table | some n ↦ put ip (n - 1) table ]

-- The second half: `remove_if(&ip, |_, count| *count == 0)`.
unfoldable pub reclaim : List (ℕ × ℕ) → ℕ → List (ℕ × ℕ)
reclaim table ip = elim (lookup ip table) [
  | none ↦ table
  | some n ↦ if n == 0 then erase ip table else table
]

-- The table, with how many guards each address holds and how many of its drops are half done.
pub record Slots : Type 0 where
  pub table : List (ℕ × ℕ)
  pub live : ℕ → ℕ
  pub dropping : ℕ → ℕ

abbrev pub no_slots : Slots
no_slots = record { table = []; live = λ _. 0; dropping = λ _. 0 }

unfoldable pub claimed : ℕ → Slots → ℕ → Slots
claimed most s ip =
    let (t, got) = claim s.table ip most in
    record s { table = t; live = update s.live ip (if got then s.live ip + 1 else s.live ip) }

abbrev pub half_dropped : Slots → ℕ → Slots
half_dropped s ip = record {
  table = count_down s.table ip;
  live = update s.live ip (s.live ip - 1);
  dropping = update s.dropping ip (s.dropping ip + 1);
}

abbrev pub dropped : Slots → ℕ → Slots
dropped s ip = record s {
  table = reclaim s.table ip;
  dropping = update s.dropping ip (s.dropping ip - 1);
}

-- Any task may claim; a guard that lives may be dropped, and a drop that was begun goes on.
pub data Step (most : ℕ) : Slots → Slots → Type 0 where
  claims : (s : Slots) (ip : ℕ) → Step most s (claimed most s ip)
  begins_drop : (s : Slots) (ip : ℕ) → 0 < s.live ip → Step most s (half_dropped s ip)
  ends_drop : (s : Slots) (ip : ℕ) → 0 < s.dropping ip → Step most s (dropped s ip)

pub data Reach (most : ℕ) : Slots → Type 0 where
  initially : Reach most no_slots
  later : {s s' : Slots} → Reach most s → Step most s s' → Reach most s'

-- What the table says of one address is how many guards it holds, at most the limit; a count of 0
-- stays only while a drop that will remove it is under way.
pub record Counted (most : ℕ) (ip : ℕ) (s : Slots) : Type 0 where
  pub entry : entry_or_zero ip s.table ≡ s.live ip
  pub bound : s.live ip ≤ most
  pub zeros : lookup ip s.table ≡ some 0 → 0 < s.dropping ip

pub claim-Distinct : (most ip : ℕ) (t : List (ℕ × ℕ)) → Distinct t → Distinct (claim t ip most).0
unfolding claim
claim-Distinct most ip t d = elim (Bool-cases (leb most (entry_or_zero ip t))) [
  | inl e ↦ rw e (Distinct-put ip (entry_or_zero ip t) t d)
  | inr e ↦ rw e (Distinct-put ip (entry_or_zero ip t + 1) t d)
]

count_down-Distinct : (ip : ℕ) (t : List (ℕ × ℕ)) → Distinct t → Distinct (count_down t ip)
unfolding count_down
count_down-Distinct ip t d = elim (Option-cases (lookup ip t)) [
  | inl e ↦ rw (e, count_down) d
  | inr (n, e) ↦ rw (e, count_down) (Distinct-put ip (n - 1) t d)
]

reclaim-Distinct : (ip : ℕ) (t : List (ℕ × ℕ)) → Distinct t → Distinct (reclaim t ip)
unfolding reclaim
reclaim-Distinct ip t d = elim (Option-cases (lookup ip t)) [
  | inl e ↦ rw (e, reclaim) d
  | inr (n, e) ↦ rw (e, reclaim) (if_both Distinct (n == 0) (Distinct-erase ip t d) d)
]

module _ (most : ℕ) (j : ℕ) where
  claimed-Counted :
      (s : Slots) (ip : ℕ) → 0 < most → Counted most j s → Counted most j (claimed most s ip)
  unfolding claimed claim
  claimed-Counted s ip some_room v = record {
    entry = ground (arith, at n, at (n + 1), beside n, beside (n + 1), v.entry);
    bound = ground (arith, v.bound, v.entry);
    zeros = ground (arith, at n, at (n + 1), beside n, beside (n + 1), v.zeros, v.entry);
  }
    where
      n : ℕ
      n = entry_or_zero ip s.table

      at : (v : ℕ) → lookup ip (put ip v s.table) ≡ some v
      at v = lookup-put_self ip v s.table

      beside : (v : ℕ) → j ≢ ip → lookup j (put ip v s.table) ≡ lookup j s.table
      beside v = lookup-put_ne j ip v s.table

  half_dropped-Counted :
      (s : Slots) (ip : ℕ) → 0 < s.live ip → Counted most j s → Counted most j (half_dropped s ip)
  unfolding count_down
  half_dropped-Counted s ip held v = record {
    entry = ground (arith, at (n - 1), beside (n - 1), v.entry);
    bound = ground (arith, v.bound);
    zeros = ground (arith, at (n - 1), beside (n - 1), v.zeros, v.entry);
  }
    where
      n : ℕ
      n = entry_or_zero ip s.table

      at : (v : ℕ) → lookup ip (put ip v s.table) ≡ some v
      at v = lookup-put_self ip v s.table

      beside : (v : ℕ) → j ≢ ip → lookup j (put ip v s.table) ≡ lookup j s.table
      beside v = lookup-put_ne j ip v s.table

  dropped-Counted :
      (s : Slots) (ip : ℕ) → Distinct s.table → Counted most j s → Counted most j (dropped s ip)
  unfolding reclaim
  dropped-Counted s ip d v = record {
    entry = ground (arith, at, beside, v.entry);
    bound = v.bound;
    zeros = ground (arith, at, beside, v.zeros, v.entry);
  }
    where
      at : lookup ip (erase ip s.table) ≡ none
      at = lookup-erase_self ip s.table d

      beside : j ≢ ip → lookup j (erase ip s.table) ≡ lookup j s.table
      beside = lookup-erase_ne j ip s.table

Step-Distinct : (most : ℕ) (s s' : Slots) → Step most s s' → Distinct s.table → Distinct s'.table
unfolding claimed
Step-Distinct most _ _ (claims s ip) d = claim-Distinct most ip s.table d
Step-Distinct most _ _ (begins_drop s ip held) d = count_down-Distinct ip s.table d
Step-Distinct most _ _ (ends_drop s ip begun) d = reclaim-Distinct ip s.table d

Reach-Distinct : (most : ℕ) (s : Slots) → Reach most s → Distinct s.table
Reach-Distinct most _ initially = tt
Reach-Distinct most _ (later {s} {s'} r t) = Step-Distinct most s s' t (Reach-Distinct most s r)

Step-Counted :
    (most j : ℕ) (s s' : Slots)
    → 0 < most
    → Step most s s'
    → Distinct s.table
    → Counted most j s
    → Counted most j s'
Step-Counted most j _ _ some_room (claims s ip) d v = claimed-Counted most j s ip some_room v
Step-Counted most j _ _ some_room (begins_drop s ip held) d v =
    half_dropped-Counted most j s ip held v
Step-Counted most j _ _ some_room (ends_drop s ip begun) d v = dropped-Counted most j s ip d v

-- With a limit that is not 0, whatever tasks claim and drop slots in whatever order, the table holds
-- for each address how many guards it has, never more than the limit, and a count of 0 stands only
-- while a drop that will take it out is under way.
pub Reach-Counted : (most : ℕ) (s : Slots) → 0 < most → Reach most s → (j : ℕ) → Counted most j s
unfolding lookup
Reach-Counted most _ some_room initially j = record {
  entry = refl;
  bound = omega arith;
  zeros = λ e. absurd (ground arith);
}
Reach-Counted most _ some_room (later {s} {s'} r t) j =
    Step-Counted most j s s' some_room t (Reach-Distinct most s r)
      (Reach-Counted most s some_room r j)

-- With a limit that is not 0, a claim in any state that tasks can reach succeeds if the address holds
-- fewer guards than the limit, and only then.
pub claim_below :
    (most : ℕ) (s : Slots) (ip : ℕ)
    → 0 < most
    → Reach most s
    → (claim s.table ip most).1 ≡ ltb (s.live ip) most
unfolding claim
claim_below most s ip some_room r =
    let v = Reach-Counted most s some_room r ip in let same = v.entry in ground arith

-- With a limit that is not 0, an address without a half done drop has an entry exactly if it holds a
-- guard, and the entry is their number.
pub live_entries :
    (most : ℕ) (s : Slots) (ip : ℕ)
    → 0 < most
    → Reach most s
    → s.dropping ip ≡ 0
    → lookup ip s.table ≡ (if s.live ip == 0 then none else some (s.live ip))
live_entries most s ip some_room r still =
    let v = Reach-Counted most s some_room r ip in
    let same = v.entry in let zeros = v.zeros in ground arith
