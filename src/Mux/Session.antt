-- ===== src/Mux/Session.antt =====
-- src/mux.rs: the state of a session. A stream's inbox and its credit are shared by the session and
-- the stream's halves, so they stand on a heap, and the session's map holds addresses.
use dsh_proxy.Common.{ℕ, List, Bool}
use dsh_proxy.Mux.Runtime.{Runtime}

abbrev pub inbox_frames : ℕ
inbox_frames = 1024

-- Either half of a stream: its id, and the address of its inbox and credit.
pub record Half : Type 0 where
  pub id : ℕ
  pub at : ℕ

module _ (rt : Runtime) where
  open rt use {Sem, Inbox, Outbox}

  -- What a stream's halves share.
  pub record Channel : Type 0 where
    pub inbox : Inbox
    pub credit : Sem

  pub record MuxSession : Type 0 where
    pub out : Outbox
    pub streams : List (ℕ × ℕ)
    pub next_id : ℕ
    pub budget : Sem
    pub reader_aborted : Bool
    pub writer_aborted : Bool
    pub on_open : Bool
    pub announced : List Half
    pub heap : ℕ → Channel
    pub fresh : ℕ
