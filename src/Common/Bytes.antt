-- ===== src/Common/Bytes.antt =====
-- Bytes and big-endian words. A byte string is a list of numbers below 256.
use dsh_proxy.Common.Tests.{◌==◌, ==_iff, if◌then◌else◌}
use Prim.Native.Nat.{ℕ, zero, suc, ◌+◌, ◌*◌, ◌/◌, ◌%◌, ◌^◌, ◌<◌, bit_and, bit_or, bit_xor}
use mathlib.Core.Path.{◌≡◌, refl}
use mathlib.Core.Bool.{Bool, true, false}
use mathlib.Core.List.{List, [], ◌∷◌}
use native.Mathlib.Omega.{arith}

abbrev pub IsByte : ℕ → Type 0
IsByte b = b < 256

abbrev pub Bytes : Type 0
Bytes = List ℕ

-- `put_u16`, `put_u32`, `put_u64` and `to_be_bytes`: the number's low bytes, highest first.
abbrev pub put_u16 : ℕ → Bytes
put_u16 n = (n / 256 % 256) ∷ (n % 256) ∷ []

abbrev pub put_u32 : ℕ → Bytes
put_u32 n = (n / 2 ^ 24 % 256) ∷ (n / 2 ^ 16 % 256) ∷ (n / 256 % 256) ∷ (n % 256) ∷ []

abbrev pub put_u64 : ℕ → Bytes
put_u64 n =
    (n / 2 ^ 56 % 256) ∷ (n / 2 ^ 48 % 256) ∷ (n / 2 ^ 40 % 256) ∷ (n / 2 ^ 32 % 256) ∷ put_u32 n

-- `from_be_bytes`.
abbrev pub u16_from_be_bytes : ℕ → ℕ → ℕ
u16_from_be_bytes a b = a * 256 + b

abbrev pub u32_from_be_bytes : ℕ → ℕ → ℕ → ℕ → ℕ
u32_from_be_bytes a b c d = a * 2 ^ 24 + b * 2 ^ 16 + c * 256 + d

abbrev pub u64_from_be_bytes : ℕ → ℕ → ℕ → ℕ → ℕ → ℕ → ℕ → ℕ → ℕ
u64_from_be_bytes a b c d e f g h = u32_from_be_bytes a b c d * 2 ^ 32 + u32_from_be_bytes e f g h

pub u16-put_u16 : (n : ℕ) → n < 2 ^ 16 → u16_from_be_bytes (n / 256 % 256) (n % 256) ≡ n
u16-put_u16 n h = omega arith

pub u32-put_u32 :
    (n : ℕ)
    → n < 2 ^ 32
    → u32_from_be_bytes (n / 2 ^ 24 % 256) (n / 2 ^ 16 % 256) (n / 256 % 256) (n % 256) ≡ n
u32-put_u32 n h = omega arith

-- Whether a test passes on each number below the bound.
every : (ℕ → Bool) → ℕ → Bool
every p zero = true
every p (suc bound) = if p bound then every p bound else false

every-at : (p : ℕ → Bool) (bound x : ℕ) → x < bound → every p bound ≡ true → p x ≡ true
unfolding every
every-at p zero x h e = elim h [ ]
every-at p (suc bound) x h e = ground (arith, every-at p bound x)

-- Masks on one byte as arithmetic.
flag_table : every (λ x. bit_and x 0x80 == x / 128 * 128) 256 ≡ true
unfolding every
flag_table = refl

pub bit_and_flag : (x : ℕ) → IsByte x → bit_and x 0x80 ≡ x / 128 * 128
bit_and_flag x h = (==_iff _ _).0 (every-at _ 256 x h flag_table)

seven_table : every (λ x. bit_and x 0x7f == x % 128) 256 ≡ true
unfolding every
seven_table = refl

pub bit_and_seven : (x : ℕ) → IsByte x → bit_and x 0x7f ≡ x % 128
bit_and_seven x h = (==_iff _ _).0 (every-at _ 256 x h seven_table)

four_table : every (λ x. bit_and x 0x0f == x % 16) 256 ≡ true
unfolding every
four_table = refl

pub bit_and_four : (x : ℕ) → IsByte x → bit_and x 0x0f ≡ x % 16
bit_and_four x h = (==_iff _ _).0 (every-at _ 256 x h four_table)

eight_table : every (λ x. bit_and x 0x08 == x / 8 * 8) 16 ≡ true
unfolding every
eight_table = refl

pub bit_and_eight : (x : ℕ) → x < 16 → bit_and x 0x08 ≡ x / 8 * 8
bit_and_eight x h = (==_iff _ _).0 (every-at _ 16 x h eight_table)

or_table : every (λ x. bit_or 0x80 x == x + 128) 128 ≡ true
unfolding every
or_table = refl

pub bit_or_flag : (x : ℕ) → x < 128 → bit_or 0x80 x ≡ x + 128
bit_or_flag x h = (==_iff _ _).0 (every-at _ 128 x h or_table)

xor_table : every (λ k. every (λ x. bit_xor (bit_xor x k) k == x) 256) 256 ≡ true
unfolding every
xor_table = refl

-- Masking a byte twice gives it back.
pub bit_xor_twice : (x k : ℕ) → IsByte x → IsByte k → bit_xor (bit_xor x k) k ≡ x
bit_xor_twice x k hx hk = (==_iff _ _).0 (
    every-at _ 256 x hx
      (every-at (λ k. every (λ x. bit_xor (bit_xor x k) k == x) 256) 256 k hk xor_table))
