-- ===== src/Mux/Runtime.antt =====
-- What src/mux.rs uses of tokio: semaphores, the bounded channel into a stream, and the channel to
-- the writer task. `Runtime` has the operations, and `Lawful` what is relied on of them.
use dsh_proxy.Common.{
  ℕ, ◌+◌, ◌-◌, ◌^◌, ◌≤◌, ◌<◌, ◌≡◌, ◌⊎◌, inl, inr, refl, List, [], ◌∷◌, ◌++◌, length, Option, none,
  some, Bool, true, false,
}
use dsh_proxy.Common.Bytes.{Bytes}
use dsh_proxy.Frame.{Frame}

-- What `try_send` answers.
pub data Sent : Type 0 where
  taken full closed : Sent

-- What `poll_recv` answers: a chunk, the end of the stream, or nothing yet.
pub data Received : Type 0 where
  chunk : Bytes → Received
  ended waiting : Received

pub record Runtime : Type 1 where
  -- A semaphore: `new`, `available_permits`, `is_closed`, `try_acquire_many` (`none` where it fails),
  -- `add_permits` (`none` where it panics), the drop of a permit, and `close`.
  pub Sem : Type 0
  pub new : ℕ → Sem
  pub available : Sem → ℕ
  pub is_closed : Sem → Bool
  pub try_acquire : ℕ → Sem → Option Sem
  pub add_permits : ℕ → Sem → Option Sem
  pub release : Sem → Sem
  pub close : Sem → Sem
  -- The channel into a stream: what it holds and may hold at most,
  -- whether its receiver was dropped, and the drops of both ends.
  pub Inbox : Type 0
  pub channel : ℕ → Inbox
  pub held : Inbox → List Bytes
  pub capacity : Inbox → ℕ
  pub receiver_gone : Inbox → Bool
  pub try_send : Inbox → Bytes → Inbox × Sent
  pub poll_recv : Inbox → Inbox × Received
  pub drop_sender : Inbox → Inbox
  pub drop_receiver : Inbox → Inbox
  -- The channel to the writer task: the frames that it has accepted so far, the awaited `send` and
  -- `try_send`, each with whether the frame was taken.
  pub Outbox : Type 0
  pub accepted : Outbox → List Frame
  pub send : Outbox → Frame → Outbox × Bool
  pub try_send_out : Outbox → Frame → Outbox × Bool

-- tokio's `Semaphore::MAX_PERMITS` on a 64-bit machine.
abbrev pub max_permits : ℕ
max_permits = 2 ^ 61 - 1

module _ (rt : Runtime) where
  open rt use {
    Sem, new, available, is_closed, try_acquire, add_permits, release, close, Inbox, channel, held,
    capacity, receiver_gone, try_send, poll_recv, Outbox, accepted, send, try_send_out,
  }

  pub record Lawful : Type 0 where
    pub available-new : (n : ℕ) → n ≤ max_permits → available (new n) ≡ n
    pub is_closed-new : (n : ℕ) → n ≤ max_permits → is_closed (new n) ≡ false
    pub acquire-some :
        (n : ℕ) (s s' : Sem)
        → try_acquire n s ≡ some s'
        → (available s' + n ≡ available s) × (is_closed s ≡ false) × (is_closed s' ≡ false)
    pub acquire-none :
        (n : ℕ) (s : Sem) → try_acquire n s ≡ none → is_closed s ≡ false → available s < n
    pub add-some :
        (n : ℕ) (s s' : Sem)
        → add_permits n s ≡ some s'
        → (available s' ≡ available s + n) × (is_closed s' ≡ is_closed s)
    pub add-fits :
        (n : ℕ) (s : Sem) → available s + n ≤ max_permits → (s' : Sem) × (add_permits n s ≡ some s')
    pub add-overflow : (n : ℕ) (s : Sem) → max_permits < available s + n → add_permits n s ≡ none
    pub available-release : (s : Sem) → available (release s) ≡ available s + 1
    pub is_closed-release : (s : Sem) → is_closed (release s) ≡ is_closed s
    pub is_closed-close : (s : Sem) → is_closed (close s) ≡ true
    pub available-close : (s : Sem) → available (close s) ≡ available s
    pub held-channel : (n : ℕ) → held (channel n) ≡ []
    pub try_send-taken :
        (i i' : Inbox) (b : Bytes) → try_send i b ≡ (i', taken) → held i' ≡ held i ++ (b ∷ [])
    pub capacity-channel : (n : ℕ) → capacity (channel n) ≡ n
    pub receiver_gone-channel : (n : ℕ) → receiver_gone (channel n) ≡ false
    pub try_send_keeps :
        (i : Inbox) (b : Bytes)
        → (capacity (try_send i b).0 ≡ capacity i)
          × (receiver_gone (try_send i b).0 ≡ receiver_gone i)
    pub try_send-room :
        (i : Inbox) (b : Bytes)
        → receiver_gone i ≡ false
        → length (held i) < capacity i
        → (try_send i b).1 ≡ taken
    pub try_send_at_capacity :
        (i : Inbox) (b : Bytes)
        → receiver_gone i ≡ false
        → capacity i ≤ length (held i)
        → (try_send i b).1 ≡ full
    pub try_send-full : (i i' : Inbox) (b : Bytes) → try_send i b ≡ (i', full) → i' ≡ i
    pub try_send-closed : (i i' : Inbox) (b : Bytes) → try_send i b ≡ (i', closed) → i' ≡ i
    pub poll_recv-chunk :
        (i i' : Inbox) (b : Bytes) → poll_recv i ≡ (i', chunk b) → held i ≡ b ∷ held i'
    -- A poll may be put off although something is there.
    pub poll_recv-waiting : (i i' : Inbox) → poll_recv i ≡ (i', waiting) → held i' ≡ held i
    pub poll_recv-ended :
        (i i' : Inbox) → poll_recv i ≡ (i', ended) → (held i ≡ []) × (held i' ≡ [])
    pub send-taken :
        (o o' : Outbox) (f : Frame) → send o f ≡ (o', true) → accepted o' ≡ accepted o ++ (f ∷ [])
    pub send-closed :
        (o o' : Outbox) (f : Frame) → send o f ≡ (o', false) → accepted o' ≡ accepted o
    pub try_send_out-taken :
        (o o' : Outbox) (f : Frame)
        → try_send_out o f ≡ (o', true)
        → accepted o' ≡ accepted o ++ (f ∷ [])
    pub try_send_out-refused :
        (o o' : Outbox) (f : Frame) → try_send_out o f ≡ (o', false) → accepted o' ≡ accepted o

pub Received-cases : (r : Received) → ((b : Bytes) × (r ≡ chunk b)) ⊎ (r ≡ ended) ⊎ (r ≡ waiting)
Received-cases (chunk b) = inl (b, refl)
Received-cases ended = inr (inl refl)
Received-cases waiting = inr (inr refl)
