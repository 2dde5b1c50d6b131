-- ===== src/Prelude/Int64.antt =====
-- Go's int64, with its wrap-around; `negsuc n` is -(n + 1).
use Prim.Native.Nat.{ℕ, zero, suc, ◌+◌, ◌<◌}
use mathlib.Core.Path.{◌≡◌}
use mathlib.Core.Logic.{◌↔◌}
use mathlib.Core.Bool.{Bool, true, false}
use native.Mathlib.Omega.{arith}
use flit_el.Prelude.Tests.{Comparable, ltb, nat_beq, if◌then◌else◌}

pub data ℤ : Type 0 where
  pos : ℕ → ℤ
  negsuc : ℕ → ℤ

abbrev pub max_int64 : ℕ
max_int64 = 9223372036854775807

-- x + 1
unfoldable pub add_one_int64 : ℤ → ℤ
add_one_int64 (pos n) = if nat_beq n max_int64 then negsuc max_int64 else pos (n + 1)
add_one_int64 (negsuc zero) = pos 0
add_one_int64 (negsuc (suc n)) = negsuc n

-- -x
unfoldable pub neg_int64 : ℤ → ℤ
neg_int64 (pos zero) = pos 0
neg_int64 (pos (suc n)) = negsuc n
neg_int64 (negsuc n) = if nat_beq n max_int64 then negsuc n else pos (n + 1)

abbrev pub int_beq : ℤ → ℤ → Bool
int_beq (pos a) (pos b) = nat_beq a b
int_beq (pos a) (negsuc b) = false
int_beq (negsuc a) (pos b) = false
int_beq (negsuc a) (negsuc b) = nat_beq a b

-- a < b
abbrev pub int_ltb : ℤ → ℤ → Bool
int_ltb (pos a) (pos b) = ltb a b
int_ltb (pos a) (negsuc b) = false
int_ltb (negsuc a) (pos b) = true
int_ltb (negsuc a) (negsuc b) = ltb b a

pub int_beq_iff : (a b : ℤ) → (int_beq a b ≡ true) ↔ (a ≡ b)
int_beq_iff (pos a) (pos b) = ground arith
int_beq_iff (pos a) (negsuc b) = ground arith
int_beq_iff (negsuc a) (pos b) = ground arith
int_beq_iff (negsuc a) (negsuc b) = ground arith

instance abbrev pub int_eq : Comparable ℤ
int_eq = record { equal = int_beq; equal_iff = int_beq_iff }

-- The counter of ids counts up, and its negation is the integer below zero of that rank.
pub add_one_int64_pos : (n : ℕ) → n < max_int64 → add_one_int64 (pos n) ≡ pos (n + 1)
unfolding add_one_int64
add_one_int64_pos n h = ground arith

pub neg-add_one : (n : ℕ) → n < max_int64 → neg_int64 (add_one_int64 (pos n)) ≡ negsuc n
unfolding add_one_int64 neg_int64
neg-add_one n h = ground arith
