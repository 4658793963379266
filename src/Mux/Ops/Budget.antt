-- ===== src/Mux/Ops/Budget.antt =====
-- src/mux.rs: the stream ceiling of a link is exact under every operation. A permit is out for each
-- stream in the map, and for nothing else.
use dsh_proxy.Common.{
  ◌≤◌, ℕ, suc, ◌+◌, ◌≡◌, List, [], ◌∷◌, length, some, Option-cases, inl, inr, false, arith, max,
  Bool-cases, ◌%◌, ◌^◌, lookup, erase, Distinct, length-erase, lookup-erase_self, Distinct-erase,
}
use dsh_proxy.Frame.{Frame, control}
use dsh_proxy.Mux.Runtime.{max_permits, Runtime, Lawful}
use dsh_proxy.Mux.Session.{MuxSession}
use dsh_proxy.Mux.Ops.{
  start, allocate, drop_state, close_credit, insert_stream, remove_stream, hang_up, post,
  open_reserved, try_open_stream, drop_all, retire,
}
use dsh_proxy.Wire.{kind_open}

module _ {rt : Runtime} (law : Lawful rt) (limit : ℕ) where
  -- `spare` counts permits that are out for a stream which is not in the map yet.
  pub record Exact (spare : ℕ) (s : MuxSession rt) : Type 0 where
    pub slots : rt.available s.budget + length s.streams + spare ≡ limit
    pub keys : Distinct s.streams
    pub usable : rt.is_closed s.budget ≡ false

  drop_state-Exact :
      (s : MuxSession rt) (at spare : ℕ) → Exact (suc spare) s → Exact spare (drop_state s at)
  unfolding drop_state
  drop_state-Exact s at spare v =
      ground (arith, law.available-release s.budget, law.is_closed-release s.budget)

  pub insert_stream-Exact :
      (s : MuxSession rt) (id at spare : ℕ)
      → Exact (suc spare) s
      → Exact spare (insert_stream s id at)
  unfolding insert_stream
  insert_stream-Exact s id at spare v = elim (Option-cases (lookup id s.streams)) [
    | inl e ↦
        rw (e, insert_stream)
          (record { slots = omega (arith, v.slots); keys = (e, v.keys); usable = v.usable })
    | inr (old, e) ↦
        rw (e, insert_stream)
          (drop_state-Exact _ old spare (record {
            slots = omega (arith, v.slots, length-erase id old s.streams e);
            keys = (lookup-erase_self id s.streams v.keys, Distinct-erase id s.streams v.keys);
            usable = v.usable;
          }))
  ]

  erased :
      (s : MuxSession rt) (id old spare : ℕ)
      → lookup id s.streams ≡ some old
      → Exact spare s
      → Exact (suc spare) (record s { streams = erase id s.streams })
  erased s id old spare e v = record {
    slots = omega (arith, v.slots, length-erase id old s.streams e);
    keys = Distinct-erase id s.streams v.keys;
    usable = v.usable;
  }

  pub remove_stream-Exact :
      (s : MuxSession rt) (id spare : ℕ) → Exact spare s → Exact spare (remove_stream s id)
  unfolding remove_stream
  remove_stream-Exact s id spare v = elim (Option-cases (lookup id s.streams)) [
    | inl e ↦ rw (e, remove_stream) v
    | inr (old, e) ↦
        rw (e, remove_stream) (drop_state-Exact _ old spare (erased s id old spare e v))
  ]

  close_credit-Exact :
      (s : MuxSession rt) (at spare : ℕ) → Exact spare s → Exact spare (close_credit s at)
  unfolding close_credit
  close_credit-Exact s at spare v = record { slots = v.slots; keys = v.keys; usable = v.usable }

  pub hang_up-Exact :
      (s : MuxSession rt) (id spare : ℕ) → Exact spare s → Exact spare (hang_up s id)
  unfolding hang_up
  hang_up-Exact s id spare v = elim (Option-cases (lookup id s.streams)) [
    | inl e ↦ rw (e, hang_up) v
    | inr (old, e) ↦
        rw (e, hang_up)
          (drop_state-Exact _ old spare
            (close_credit-Exact _ old (suc spare) (erased s id old spare e v)))
  ]

  pub post-Exact :
      (s : MuxSession rt) (f : Frame) (spare : ℕ) → Exact spare s → Exact spare (post s f).0
  unfolding post
  post-Exact s f spare v = record { slots = v.slots; keys = v.keys; usable = v.usable }

  pub allocate-Exact : (s : MuxSession rt) (spare : ℕ) → Exact spare s → Exact spare (allocate s)
  unfolding allocate
  allocate-Exact s spare v = record { slots = v.slots; keys = v.keys; usable = v.usable }

  -- A permit taken from the budget is spare until its stream stands in the map.
  pub acquired-Exact :
      (s : MuxSession rt) (b : rt.Sem) (next spare : ℕ)
      → rt.try_acquire 1 s.budget ≡ some b
      → Exact spare s
      → Exact (suc spare) (record s { budget = b; next_id = next })
  acquired-Exact s b next spare e v =
      let (count, _, usable) = law.acquire-some 1 s.budget b e in
      record { slots = omega (arith, v.slots, count); keys = v.keys; usable = usable }

  open_reserved-Exact :
      (s : MuxSession rt) (b : rt.Sem) (spare : ℕ)
      → rt.try_acquire 1 s.budget ≡ some b
      → Exact spare s
      → Exact spare (open_reserved s b).0
  unfolding open_reserved
  open_reserved-Exact s b spare e v = elim (Bool-cases (post inserted announcement).1) [
    | inl sent ↦ rw (sent, open_reserved) posted
    | inr lost ↦ rw (lost, open_reserved) (remove_stream-Exact _ s.next_id spare posted)
  ]
    where
      announcement : Frame
      announcement = control s.next_id kind_open

      inserted : MuxSession rt
      inserted =
          insert_stream (allocate (record s { budget = b; next_id = (s.next_id + 1) % 2 ^ 32 }))
            s.next_id s.fresh

      posted : Exact spare (post inserted announcement).0
      posted = post-Exact inserted announcement spare (
          insert_stream-Exact _ s.next_id s.fresh spare
            (allocate-Exact _ (suc spare) (acquired-Exact s b _ spare e v)))

  -- Opening a stream keeps the ceiling exact, also when the link dies before the stream is announced.
  pub try_open_stream-Exact :
      (s : MuxSession rt) (spare : ℕ) → Exact spare s → Exact spare (try_open_stream s).0
  unfolding try_open_stream
  try_open_stream-Exact s spare v = elim (Option-cases (rt.try_acquire 1 s.budget)) [
    | inl e ↦ rw (e, try_open_stream) v
    | inr (b, e) ↦ rw (e, try_open_stream) (open_reserved-Exact s b spare e v)
  ]

  -- `m` are the streams that are still to be dropped.
  drop_all-Exact :
      (m : List (ℕ × ℕ)) (s : MuxSession rt) → Exact (length m) s → Exact 0 (drop_all m s)
  unfolding drop_all
  drop_all-Exact [] s v = v
  drop_all-Exact ((id, at) ∷ m) s v =
      drop_all-Exact m (drop_state (close_credit s at) at)
        (drop_state-Exact _ at (length m) (close_credit-Exact s at _ v))

  pub retire-Exact : (s : MuxSession rt) → Exact 0 s → Exact 0 (retire s)
  unfolding retire
  retire-Exact s v =
      drop_all-Exact s.streams _
        (record { slots = omega (arith, v.slots); keys = tt; usable = v.usable })

  pub start-Exact :
      (out : rt.Outbox) (max_streams : ℕ)
      → limit ≡ max max_streams 1
      → max_streams ≤ max_permits
      → Exact 0 (start out max_streams)
  unfolding start
  start-Exact out max_streams e fits = record {
    slots = omega (arith, law.available-new (max max_streams 1) (omega (arith, fits)));
    keys = tt;
    usable = law.is_closed-new (max max_streams 1) (omega (arith, fits));
  }
