-- ===== src/Platform/Floats.antt =====
-- Documented behaviour of Python's floats (IEEE 754). A float x with `x <= x` is a number: only nan
-- is not. Rounding is monotone, so the operations keep the order wherever their results are numbers.
use cloud_multi_agent_manage.Prelude.{ℕ, suc, ◌*◌, ◌<◌, ◌≤◌, ◌≡◌, leb, true, false, some}
use cloud_multi_agent_manage.Prelude.Int.{ℤ, pos, ◌≤ℤ◌}
use cloud_multi_agent_manage.Platform.{Platform}

pub record IsFloat ⦃p : Platform⦄ : Type 0 where
  pub le_trans : (a b c : p.F) → p.le a b ≡ true → p.le b c ≡ true → p.le a c ≡ true
  pub lt-le : (a b : p.F) → p.lt a b ≡ true → p.le a b ≡ true
  pub le_of_not-lt :
      (a b : p.F) → p.le a a ≡ true → p.le b b ≡ true → p.lt a b ≡ false → p.le b a ≡ true
  pub not-lt_of_le : (a b : p.F) → p.le a b ≡ true → p.lt b a ≡ false
  pub lit_num : (m d : ℕ) → p.le (p.lit m d) (p.lit m d) ≡ true
  pub zero-le-one : p.le (p.lit 0 1) (p.lit 10 1) ≡ true
  pub add_mono :
      (a b c : p.F)
      → p.le a b ≡ true
      → p.le (p.add c a) (p.add c a) ≡ true
      → p.le (p.add c b) (p.add c b) ≡ true
      → p.le (p.add c a) (p.add c b) ≡ true
  pub subtract_mono :
      (a b c : p.F)
      → p.le a b ≡ true
      → p.le (p.subtract a c) (p.subtract a c) ≡ true
      → p.le (p.subtract b c) (p.subtract b c) ≡ true
      → p.le (p.subtract a c) (p.subtract b c) ≡ true
  pub times_mono :
      (a b c : p.F)
      → p.le a b ≡ true
      → p.le (p.lit 0 0) c ≡ true
      → p.le (p.times a c) (p.times a c) ≡ true
      → p.le (p.times b c) (p.times b c) ≡ true
      → p.le (p.times a c) (p.times b c) ≡ true
  pub trunc-le :
      (n : ℕ) (x : p.F) (z : ℤ) → p.lt x (p.of_int (pos n)) ≡ true → p.trunc x ≡ some z → z ≤ℤ pos n

-- `round(x, 4)` is monotone, and keeps 0 and 1.
pub record IsRounding ⦃p : Platform⦄ : Type 0 where
  pub round4_mono : (a b : p.F) → p.le a b ≡ true → p.le (p.round4 a) (p.round4 b) ≡ true
  pub round4_zero : p.round4 (p.lit 0 1) ≡ p.lit 0 1
  pub round4_one : p.round4 (p.lit 10 1) ≡ p.lit 10 1

-- The halves up to ten are floats, and rounding is monotone: a float that is at most one of them is at
-- most the next lower one when a half is taken away.
pub record IsHalves ⦃p : Platform⦄ : Type 0 where
  pub zero-le : p.le (p.lit 0 1) (p.lit 0 0) ≡ true
  pub half_step :
      (n : ℕ) (x : p.F)
      → n < 20
      → p.le x (p.lit (5 * suc n) 1) ≡ true
      → p.le (p.subtract x (p.lit 5 1)) (p.lit (5 * n) 1) ≡ true

-- The integers up to ten thousand are floats, each its own.
pub record IsExact ⦃p : Platform⦄ : Type 0 where
  pub of_int-le :
      (m n : ℕ) → m ≤ 10000 → n ≤ 10000 → p.le (p.of_int (pos m)) (p.of_int (pos n)) ≡ leb m n
