-- ===== src/Common/Io.antt =====
-- Results of fallible code, as in std::io. Of an error the kind is kept, and its message is not.

pub data ErrorKind : Type 0 where
  invalid_data broken_pipe timed_out unexpected_eof other : ErrorKind

pub data Result {ℓ} (A : Type ℓ) : Type ℓ where
  ok : A → Result A
  err : ErrorKind → Result A

-- std's `Poll<Result<A>>`.
pub data Poll (A : Type 0) : Type 0 where
  pending : Poll A
  ready : Result A → Poll A
