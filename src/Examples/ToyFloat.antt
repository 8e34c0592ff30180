-- ===== src/Examples/ToyFloat.antt =====
-- The numbers of the concrete platform keep what is assumed of floats.
use native.Mathlib.Nat.{mul-le-mul_right}
use cloud_multi_agent_manage.Prelude.{ℕ, ◌≡◌, refl, true, leb, ◌*◌, ◌/◌, ◌≤◌, arith}
use cloud_multi_agent_manage.Platform.Floats.{IsFloat, IsHalves, IsRounding}
use cloud_multi_agent_manage.Examples.Toy.{toy, literal}

leb_of_le : (a b : ℕ) → a ≤ b → leb a b ≡ true
leb_of_le a b h = ground arith

le_of_leb : (a b : ℕ) → leb a b ≡ true → a ≤ b
le_of_leb a b h = ground arith

pub toy-IsFloat : IsFloat ⦃p = toy⦄
toy-IsFloat = record {
  le_trans = λ a b c h k. ground arith;
  lt-le = λ a b h. ground arith;
  le_of_not-lt = λ a b h k l. ground arith;
  not-lt_of_le = λ a b h. ground arith;
  lit_num = λ m d. leb_of_le (literal m d) (literal m d) (omega arith);
  zero-le-one = refl;
  add_mono = λ a b c h _ _. ground arith;
  subtract_mono = λ a b c h _ _. ground arith;
  times_mono = λ a b c h _ _ _.
      leb_of_le (a * c / 10000) (b * c / 10000)
        (omega (arith, mul-le-mul_right c (le_of_leb a b h)));
  trunc-le = λ n x z h e. ground arith;
}

pub toy-IsHalves : IsHalves ⦃p = toy⦄
toy-IsHalves = record { zero-le = refl; half_step = λ n x b h. ground arith }

pub toy-IsRounding : IsRounding ⦃p = toy⦄
toy-IsRounding = record { round4_mono = λ a b h. h; round4_zero = refl; round4_one = refl }
