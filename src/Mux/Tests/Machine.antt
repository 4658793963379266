-- ===== src/Mux/Tests/Machine.antt =====
-- A runtime of plain counters and lists, which meets what src/mux.rs relies on.
use dsh_proxy.Common.{
  ℕ, ◌+◌, ◌-◌, ◌≤◌, ◌<◌, ◌≡◌, refl, List, [], ◌∷◌, ◌++◌, length, Option, none, some, Bool, true,
  false, arith, ltb, leb, if◌then◌else◌,
}
use dsh_proxy.Common.Bytes.{Bytes}
use dsh_proxy.Frame.{Frame}
use dsh_proxy.Mux.Runtime.{
  Runtime, Lawful, Received, chunk, ended, waiting, Sent, taken, full, closed, max_permits,
}

pub record Counter : Type 0 where
  pub permits : ℕ
  pub shut : Bool

pub record Queue : Type 0 where
  pub items : List Bytes
  pub cap : ℕ
  pub deaf : Bool
  pub orphan : Bool

-- The link: the frames that it took, and whether it still lives.
pub record Link : Type 0 where
  pub frames : List Frame
  pub alive : Bool

abbrev pub acquire : ℕ → Counter → Option Counter
acquire n s =
    if s.shut
    then none
    else if leb n s.permits
    then some (record s { permits = s.permits - n })
    else none

abbrev pub add : ℕ → Counter → Option Counter
add n s =
    if ltb max_permits (s.permits + n) then none else some (record s { permits = s.permits + n })

abbrev pub offer : Queue → Bytes → Queue × Sent
offer q b =
    if q.deaf
    then (q, closed)
    else if ltb (length q.items) q.cap
    then (record q { items = q.items ++ (b ∷ []) }, taken)
    else (q, full)

abbrev pub receive : Queue → Queue × Received
receive q = elim q.items [
  | [] ↦ (q, if q.orphan then ended else waiting)
  | b ∷ bs ↦ (record q { items = bs }, chunk b)
]

abbrev pub transmit : Link → Frame → Link × Bool
transmit l f = if l.alive then (record l { frames = l.frames ++ (f ∷ []) }, true) else (l, false)

-- With a way to send to the writer task.
abbrev pub machine_with : (Link → Frame → Link × Bool) → Runtime
machine_with send = record {
  Sem = Counter;
  new = λ n. record { permits = n; shut = false };
  available = λ s. s.permits;
  is_closed = λ s. s.shut;
  try_acquire = acquire;
  add_permits = add;
  release = λ s. record s { permits = s.permits + 1 };
  close = λ s. record s { shut = true };
  Inbox = Queue;
  channel = λ n. record { items = []; cap = n; deaf = false; orphan = false };
  held = λ q. q.items;
  capacity = λ q. q.cap;
  receiver_gone = λ q. q.deaf;
  try_send = offer;
  poll_recv = receive;
  drop_sender = λ q. record q { orphan = true };
  drop_receiver = λ q. record q { deaf = true };
  Outbox = Link;
  accepted = λ l. l.frames;
  send = send;
  try_send_out = transmit;
}

abbrev pub machine : Runtime
machine = machine_with transmit

-- A link that is never found dead.
abbrev pub always : Link → Frame → Link × Bool
always l f = (record l { frames = l.frames ++ (f ∷ []) }, true)

abbrev pub steady : Runtime
steady = machine_with always

acquire-some_lem :
    (n : ℕ) (s s' : Counter)
    → acquire n s ≡ some s'
    → (s'.permits + n ≡ s.permits) × (s.shut ≡ false) × (s'.shut ≡ false)
acquire-some_lem n s s' h = ground arith

acquire-none_lem : (n : ℕ) (s : Counter) → acquire n s ≡ none → s.shut ≡ false → s.permits < n
acquire-none_lem n s h o = ground arith

add-some_lem :
    (n : ℕ) (s s' : Counter) → add n s ≡ some s' → (s'.permits ≡ s.permits + n) × (s'.shut ≡ s.shut)
add-some_lem n s s' h = ground arith

add-fits_lem :
    (n : ℕ) (s : Counter) → s.permits + n ≤ max_permits → (s' : Counter) × (add n s ≡ some s')
add-fits_lem n s h = (record s { permits = s.permits + n }, ground arith)

add-overflow_lem : (n : ℕ) (s : Counter) → max_permits < s.permits + n → add n s ≡ none
add-overflow_lem n s h = ground arith

offer-taken : (i i' : Queue) (b : Bytes) → offer i b ≡ (i', taken) → i'.items ≡ i.items ++ (b ∷ [])
offer-taken i i' b h = ground arith

offer_keeps : (i : Queue) (b : Bytes) → ((offer i b).0.cap ≡ i.cap) × ((offer i b).0.deaf ≡ i.deaf)
offer_keeps i b = ground arith

offer-room :
    (i : Queue) (b : Bytes) → i.deaf ≡ false → length i.items < i.cap → (offer i b).1 ≡ taken
offer-room i b h r = ground arith

offer_at_capacity :
    (i : Queue) (b : Bytes) → i.deaf ≡ false → i.cap ≤ length i.items → (offer i b).1 ≡ full
offer_at_capacity i b h r = ground arith

offer-full : (i i' : Queue) (b : Bytes) → offer i b ≡ (i', full) → i' ≡ i
offer-full i i' b h = ground arith

offer-closed : (i i' : Queue) (b : Bytes) → offer i b ≡ (i', closed) → i' ≡ i
offer-closed i i' b h = ground arith

receive-chunk : (i i' : Queue) (b : Bytes) → receive i ≡ (i', chunk b) → i.items ≡ b ∷ i'.items
receive-chunk i i' b h = ground arith

receive-waiting : (i i' : Queue) → receive i ≡ (i', waiting) → i'.items ≡ i.items
receive-waiting i i' h = ground arith

receive-ended : (i i' : Queue) → receive i ≡ (i', ended) → (i.items ≡ []) × (i'.items ≡ [])
receive-ended i i' h = ground arith

transmit-true :
    (o o' : Link) (f : Frame) → transmit o f ≡ (o', true) → o'.frames ≡ o.frames ++ (f ∷ [])
transmit-true o o' f h = ground arith

transmit-false : (o o' : Link) (f : Frame) → transmit o f ≡ (o', false) → o'.frames ≡ o.frames
transmit-false o o' f h = ground arith

lawful_with :
    (send : Link → Frame → Link × Bool)
    → ((o o' : Link) (f : Frame) → send o f ≡ (o', true) → o'.frames ≡ o.frames ++ (f ∷ []))
    → ((o o' : Link) (f : Frame) → send o f ≡ (o', false) → o'.frames ≡ o.frames)
    → Lawful (machine_with send)
lawful_with send yes_taken no_taken = record {
  available-new = λ n h. refl;
  is_closed-new = λ n h. refl;
  acquire-some = acquire-some_lem;
  acquire-none = acquire-none_lem;
  add-some = add-some_lem;
  add-fits = add-fits_lem;
  add-overflow = add-overflow_lem;
  available-release = λ s. refl;
  is_closed-release = λ s. refl;
  is_closed-close = λ s. refl;
  available-close = λ s. refl;
  held-channel = λ n. refl;
  try_send-taken = offer-taken;
  capacity-channel = λ n. refl;
  receiver_gone-channel = λ n. refl;
  try_send_keeps = offer_keeps;
  try_send-room = offer-room;
  try_send_at_capacity = offer_at_capacity;
  try_send-full = offer-full;
  try_send-closed = offer-closed;
  poll_recv-chunk = receive-chunk;
  poll_recv-waiting = receive-waiting;
  poll_recv-ended = receive-ended;
  send-taken = yes_taken;
  send-closed = no_taken;
  try_send_out-taken = transmit-true;
  try_send_out-refused = transmit-false;
}

pub lawful : Lawful machine
lawful = lawful_with transmit transmit-true transmit-false

always-true : (o o' : Link) (f : Frame) → always o f ≡ (o', true) → o'.frames ≡ o.frames ++ (f ∷ [])
always-true o o' f h = ground arith

always-false : (o o' : Link) (f : Frame) → always o f ≡ (o', false) → o'.frames ≡ o.frames
always-false o o' f h = absurd (ground arith)

pub lawful_steady : Lawful steady
lawful_steady = lawful_with always always-true always-false
