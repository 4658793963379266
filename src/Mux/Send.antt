-- ===== src/Mux/Send.antt =====
-- src/mux.rs: the loop of `StreamTx::send`, which spends credit and cuts the data into frames.
pub mod Flow
pub mod Live
pub mod Carried
use dsh_proxy.Common.{
  ℕ, zero, suc, ◌≡◌, ◌⊎◌, refl, inl, inr, List, [], ◌∷◌, length, take, drop, Option, none, some,
  Bool, true, false, if◌then◌else◌, min, update,
}
use dsh_proxy.Common.Bytes.{Bytes}
use dsh_proxy.Frame.{Frame}
use dsh_proxy.Mux.Runtime.{Runtime}
use dsh_proxy.Mux.Session.{Half, Channel, MuxSession}
use dsh_proxy.Mux.Ops.{post}
use dsh_proxy.Wire.{kind_data, max_payload}

-- How a call of `send` stands: finished, waiting for credit with what is left, or failed. `stuck` is
-- no behaviour of the code: the fuel ran out.
pub data Progress : Type 0 where
  done broken stuck : Progress
  parked : Bytes → Progress

pub Progress-cases :
    (p : Progress) → (p ≡ done) ⊎ (p ≡ broken) ⊎ (p ≡ stuck) ⊎ ((rest : Bytes) × (p ≡ parked rest))
Progress-cases done = inl refl
Progress-cases broken = inr (inl refl)
Progress-cases stuck = inr (inr (inl refl))
Progress-cases (parked rest) = inr (inr (inr (rest, refl)))

abbrev pub data_frame : ℕ → Bytes → Frame
data_frame id chunk = record { id = id; kind = kind_data; payload = chunk }

module _ {rt : Runtime} where
  -- `acquire_many` and `forget`: the permits are gone for good.
  unfoldable pub spend : MuxSession rt → ℕ → rt.Sem → MuxSession rt
  spend s at c = record s {
    heap = update s.heap at (record { inbox = (s.heap at).inbox; credit = c });
  }

  -- One round, on data that is not empty. A waiting acquisition that was closed fails.
  unfoldable pub send_loop : ℕ → MuxSession rt → Half → Bytes → MuxSession rt × Progress
  send_loop fuel s tx [] = (s, done)
  send_loop zero s tx (x ∷ xs) = (s, stuck)
  send_loop (suc fuel) s tx (x ∷ xs) =
      let n = min (length (x ∷ xs)) max_payload in
      let sem = (s.heap tx.at).credit in
      elim (rt.is_closed sem) [
        | true ↦ (s, broken)
        | false ↦ elim (rt.try_acquire n sem) [
          | none ↦ (s, parked (x ∷ xs))
          | some c ↦
              let (s', sent) = post (spend s tx.at c) (data_frame tx.id (take n (x ∷ xs))) in
              elim sent [ true ↦ send_loop fuel s' tx (drop n (x ∷ xs)) | false ↦ (s', broken) ]
        ]
      ]

  -- Each round takes a byte at least, so as many rounds as bytes are enough.
  unfoldable pub send : MuxSession rt → Half → Bytes → MuxSession rt × Progress
  send s tx bytes = send_loop (length bytes) s tx bytes
