-- ===== src/Prelude/Ints.antt =====
-- The C++ `int`: signed numbers with their order and equality. Sums stay in range where they are
-- used, and are written there.
use Prim.Native.Nat.{ℕ, suc, ◌+◌, ◌-◌, ◌≤◌}
use mathlib.Core.Path.{◌≡◌}
use mathlib.Core.Logic.{◌↔◌}
use mathlib.Core.Bool.{Bool, true, false}
use native.Mathlib.Omega.{arith}
use altas_dbpro.Prelude.Tests.{Eq, if◌then◌else◌, ltb, nat_eqb}

-- `negsuc n` is -(n + 1).
pub data ℤ : Type 0 where
  pos : ℕ → ℤ
  negsuc : ℕ → ℤ

abbrev pub pos_part : ℤ → ℕ
pos_part (pos n) = n
pos_part (negsuc n) = 0

abbrev pub neg_part : ℤ → ℕ
neg_part (pos n) = 0
neg_part (negsuc n) = suc n

infix 50 ◌≤ℤ◌
abbrev pub ◌≤ℤ◌ : ℤ → ℤ → Type 0
a ≤ℤ b = pos_part a + neg_part b ≤ pos_part b + neg_part a

unfoldable pub ltb_ℤ : ℤ → ℤ → Bool
ltb_ℤ a b = ltb (pos_part a + neg_part b) (pos_part b + neg_part a)

unfoldable pub eqb_ℤ : ℤ → ℤ → Bool
eqb_ℤ (pos a) (pos b) = nat_eqb a b
eqb_ℤ (negsuc a) (negsuc b) = nat_eqb a b
eqb_ℤ _ _ = false

pub eqb_ℤ_iff : (a b : ℤ) → (eqb_ℤ a b ≡ true) ↔ (a ≡ b)
unfolding eqb_ℤ
eqb_ℤ_iff (pos a) (pos b) = ground arith
eqb_ℤ_iff (negsuc a) (negsuc b) = ground arith
eqb_ℤ_iff (pos a) (negsuc b) = ground arith
eqb_ℤ_iff (negsuc a) (pos b) = ground arith

instance abbrev pub int_eq : Eq ℤ
int_eq = record { eqb = eqb_ℤ; eqb_iff = eqb_ℤ_iff }

pub not_ltb_ℤ : (a b : ℤ) → ltb_ℤ a b ≡ false → b ≤ℤ a
unfolding ltb_ℤ
not_ltb_ℤ a b h = ground arith

pub ltb_ℤ_le : (a b : ℤ) → ltb_ℤ a b ≡ true → a ≤ℤ b
unfolding ltb_ℤ
ltb_ℤ_le a b h = ground arith

pub ≤ℤ_refl : (a : ℤ) → a ≤ℤ a
≤ℤ_refl a = omega arith

pub ≤ℤ_trans : (a b c : ℤ) → a ≤ℤ b → b ≤ℤ c → a ≤ℤ c
≤ℤ_trans a b c h k = omega arith

-- `a - b`.
unfoldable pub minus : ℕ → ℕ → ℤ
minus a b = if ltb a b then negsuc (b - a - 1) else pos (a - b)

infixl 60 ◌+ℤ◌
unfoldable pub ◌+ℤ◌ : ℤ → ℤ → ℤ
unfolding minus
a +ℤ b = minus (pos_part a + pos_part b) (neg_part a + neg_part b)

pub ltb_ℤ_lt : (a b : ℤ) → (ltb_ℤ a b ≡ true) ↔ (¬ (b ≤ℤ a))
unfolding ltb_ℤ
ltb_ℤ_lt a b = ground arith

pub ≤ℤ_antisym : (a b : ℤ) → a ≤ℤ b → b ≤ℤ a → a ≡ b
≤ℤ_antisym (pos a) (pos b) h k = ground arith
≤ℤ_antisym (pos a) (negsuc b) h k = absurd (omega arith)
≤ℤ_antisym (negsuc a) (pos b) h k = absurd (omega arith)
≤ℤ_antisym (negsuc a) (negsuc b) h k = ground arith
