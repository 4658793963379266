-- ===== src/Proxy/Splice.antt =====
-- src/lib.rs: the downlink of `serve_client`, which writes what the bridge sends to the client and
-- returns its credit. The session is seen without other tasks between the rounds.
pub mod Ordered
pub mod Returned
use dsh_proxy.Common.{
  ℕ, ◌+◌, ◌/◌, ◌%◌, ◌^◌, ◌<◌, ◌≡◌, ap, List, [], ◌∷◌, ◌++◌, length, take, ◌-◌, Bool, true, false,
  leb, arith,
}
use dsh_proxy.Common.Bytes.{Bytes, put_u32}
use dsh_proxy.Frame.{Frame}
use dsh_proxy.Mux.Runtime.{Runtime, Lawful}
use dsh_proxy.Mux.Session.{Half, MuxSession}
use dsh_proxy.Mux.Ops.{post, grant}
use dsh_proxy.Wire.{window, kind_window}

abbrev pub grant_threshold : ℕ
grant_threshold = window / 2

-- The client's half that is written, with the bytes that it took so far, and whether a write failed.
pub record Writer (W : Type 0) : Type 0 where
  pub write_all : W → Bytes → W × Bool
  pub written : W → Bytes
  pub complete : (w w' : W) (b : Bytes) → write_all w b ≡ (w', true) → written w' ≡ written w ++ b
  pub partial :
      (w w' : W) (b : Bytes)
      → write_all w b ≡ (w', false)
      → (n : ℕ) × (written w' ≡ written w ++ take n b)

-- How the loop ends: the inbox is at its end, the client cannot be written, or the link is dead.
pub data Ending : Type 0 where
  drained unwritable unlinked : Ending

-- `pending += chunk.len() as u32` without overflow checks.
abbrev pub add_pending : ℕ → Bytes → ℕ
add_pending pending chunk = (pending + length chunk % 2 ^ 32) % 2 ^ 32

abbrev pub credit_frame : ℕ → ℕ → Frame
credit_frame id n = record { id = id; kind = kind_window; payload = put_u32 n }

-- The sum of what was granted.
unfoldable pub total : List ℕ → ℕ
total [] = 0
total (g ∷ gs) = g + total gs

-- The state of the loop when it ends, with what it still owes the bridge.
pub record Downlink (rt : Runtime) (W : Type 0) : Type 0 where
  pub session : MuxSession rt
  pub writer : W
  pub pending : ℕ
  pub ending : Ending

module _ {rt : Runtime} {W : Type 0} (client : Writer W) where
  open client use {write_all, written}

  -- Over the chunks that the inbox gives until it is at its end.
  unfoldable pub downlink : MuxSession rt → Half → W → ℕ → List Bytes → Downlink rt W
  downlink s tx w pending [] = record {
    session = s;
    writer = w;
    pending = pending;
    ending = drained;
  }
  downlink s tx w pending (chunk ∷ chunks) =
      let p = add_pending pending chunk in
      let (w', ok) = write_all w chunk in
      let (s', sent) = grant s tx p in
      elim ok [
        | false ↦ record { session = s; writer = w'; pending = pending; ending = unwritable }
        | true ↦ elim (leb grant_threshold p) [
          | false ↦ downlink s tx w' p chunks
          | true ↦ elim sent [
            | false ↦ record { session = s'; writer = w'; pending = p; ending = unlinked }
            | true ↦ downlink s' tx w' 0 chunks
          ]
        ]
      ]

  module _ (law : Lawful rt) where
    pub grant-accepted :
        (s : MuxSession rt) (tx : Half) (p : ℕ)
        → (grant s tx p).1 ≡ true
        → rt.accepted (grant s tx p).0.out ≡ rt.accepted s.out ++ (credit_frame tx.id p ∷ [])
    unfolding grant post
    grant-accepted s tx p sent =
        law.send-taken s.out _ (credit_frame tx.id p)
          (ap (λ b. ((rt.send s.out (credit_frame tx.id p)).0, b)) sent)

    pub grant-refused :
        (s : MuxSession rt) (tx : Half) (p : ℕ)
        → (grant s tx p).1 ≡ false
        → rt.accepted (grant s tx p).0.out ≡ rt.accepted s.out
    unfolding grant post
    grant-refused s tx p lost =
        law.send-closed s.out _ (credit_frame tx.id p)
          (ap (λ b. ((rt.send s.out (credit_frame tx.id p)).0, b)) lost)

    pub no_overflow :
        (owed : ℕ) (chunk : Bytes)
        → owed < grant_threshold
        → length chunk < 2 ^ 16
        → add_pending owed chunk ≡ owed + length chunk
    no_overflow owed chunk low short = omega arith
