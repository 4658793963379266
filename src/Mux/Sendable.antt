-- ===== src/Mux/Sendable.antt =====
-- src/mux.rs: every frame that a session gives to its writer task fits the wire.
use dsh_proxy.Common.{
  ℕ, zero, suc, ◌^◌, ◌≤◌, ◌<◌, ◌≡◌, ap, subst, sym, ◌∙◌, List, [], ◌∷◌, ◌++◌, length, length-take,
  take, drop, All, append-nil, some, arith,
}
use dsh_proxy.Common.Bytes.{Bytes, IsByte}
use dsh_proxy.Frame.{Frame, control, parse}
use dsh_proxy.Mux.Runtime.{Runtime, Lawful}
use dsh_proxy.Mux.Ops.{start}
use dsh_proxy.Mux.Runs.{Call, run}
use dsh_proxy.Mux.Emits.{Kind, Keeps}
use dsh_proxy.Mux.Emits.Calls.{run-Emits}
use dsh_proxy.Wire.{max_payload}

-- A frame that fits the wire's fields and one sealed message.
pub record Sendable (f : Frame) : Type 0 where
  pub id : f.id < 2 ^ 32
  pub kind : IsByte f.kind
  pub bytes : All IsByte f.payload
  pub size : length f.payload ≤ max_payload

pub control-Sendable : (id kind : ℕ) → id < 2 ^ 32 → IsByte kind → Sendable (control id kind)
control-Sendable id kind h k = record { id = h; kind = k; bytes = tt; size = omega arith }

pub All-take : (n : ℕ) (b : Bytes) → All IsByte b → All IsByte (take n b)
All-take zero b h = tt
All-take (suc n) [] h = tt
All-take (suc n) (x ∷ b) h = (h.0, All-take n b h.1)

pub All-drop : (n : ℕ) (b : Bytes) → All IsByte b → All IsByte (drop n b)
All-drop zero b h = h
All-drop (suc n) [] h = tt
All-drop (suc n) (x ∷ b) h = All-drop n b h.1

pub parse-id : (m : Bytes) (f : Frame) → All IsByte m → parse m ≡ some f → f.id < 2 ^ 32
unfolding parse
parse-id [] f h e = absurd (ground arith)
parse-id (a ∷ []) f h e = absurd (ground arith)
parse-id (a ∷ b ∷ []) f h e = absurd (ground arith)
parse-id (a ∷ b ∷ c ∷ []) f h e = absurd (ground arith)
parse-id (a ∷ b ∷ c ∷ d ∷ m) f h e = ground arith

-- What the code has as u32 and u8.
abbrev pub typed : Kind
typed = record {
  IsId = λ id. id < 2 ^ 32;
  Grants = λ id. id < 2 ^ 32;
  Out = Sendable;
  May = λ id b. (id < 2 ^ 32) × All IsByte b;
  Heard = λ m. All IsByte m;
  next_id = λ n. omega arith;
  opening = λ id h. control-Sendable id _ h (omega arith);
  closing = λ id h. control-Sendable id _ h (omega arith);
  keepalive = control-Sendable 0 _ (omega arith) (omega arith);
  granting =
      λ id n h. record { id = h; kind = omega arith; bytes = omega arith; size = omega arith };
  sending = λ id n b h m. record {
    id = h.0;
    kind = omega arith;
    bytes = All-take n b h.1;
    size = omega (arith, m, length-take n b);
  };
  rest = λ id n b h. (h.0, All-drop n b h.1);
  hearing = λ m f h e. parse-id m f h e;
}

-- A session that begins with an empty outbox and is called with ids of 32 bits and with bytes gives its
-- writer task only frames with an id of 32 bits, a kind of one byte and a payload of at most 16384
-- bytes, whatever the peer sends and whatever other tasks do.
pub run-Sendable :
    {rt : Runtime} (law : Lawful rt) (out : rt.Outbox) (max_streams : ℕ) (cs : List Call)
    → rt.accepted out ≡ []
    → All (Keeps typed) cs
    → All Sendable (rt.accepted (run (start {rt = rt} out max_streams) cs).out)
unfolding start
run-Sendable {rt} law out max_streams cs e h =
    let s0 = start {rt = rt} out max_streams in
    let v =
      run-Emits law typed s0 s0 cs h
        (record { next = omega arith; new = []; grown = sym (append-nil _); each = tt }) in
    subst (All Sendable) (sym (v.grown ∙ ap (λ l. l ++ v.new) e)) v.each
