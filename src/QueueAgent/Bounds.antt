-- ===== src/QueueAgent/Bounds.antt =====
-- Bounds on classes and priorities.
use cloud_multi_agent_manage.Prelude.{String, ◌≡◌, true, arith}
use cloud_multi_agent_manage.Prelude.Int.{ℤ, pos, ◌≤ℤ◌, ◌+ℤ◌}
use cloud_multi_agent_manage.Value.{Payload}
use cloud_multi_agent_manage.Platform.{Platform, Result, ok, err}
use cloud_multi_agent_manage.Platform.Floats.{IsFloat}
use cloud_multi_agent_manage.Python.{is_one_of, min_F, max_F}
use cloud_multi_agent_manage.Python.Order.{min_F-le}
use cloud_multi_agent_manage.QueueAgent.Priority.{
  task_classes, classify_size, classify_resources, classify, capped_priority, priority_at,
}

abbrev IsClass : Result String → Type 0
IsClass (ok c) = is_one_of c task_classes ≡ true
IsClass (err x) = Unit

module _ ⦃p : Platform⦄ where
  open p use {F}

  classify_size-IsClass : (cpu : F) (d : Payload F) → IsClass (classify_size cpu d)
  unfolding classify_size
  classify_size-IsClass cpu d = ground arith

  classify_resources-IsClass : (d : Payload F) → IsClass (classify_resources d)
  unfolding classify_resources
  classify_resources-IsClass d = grind (arith, classify_size-IsClass)

  classify-IsClass : (d : Payload F) → IsClass (classify d)
  unfolding classify
  classify-IsClass d = ground (arith, classify_resources-IsClass d)

  -- A class that `classify` gives is one of `TASK_CLASSES`.
  pub classify-mem :
      (d : Payload F) (c : String) → classify d ≡ ok c → is_one_of c task_classes ≡ true
  classify-mem d c h = rw h at (classify-IsClass d)

  module _ (laws : IsFloat) where
    open laws use {
      le_trans, lt-le, le_of_not-lt, not-lt_of_le, lit_num, add_mono, subtract_mono, times_mono,
      trunc-le,
    }

    -- The priority that is stored and published never exceeds 10, whatever the score.
    pub capped_priority-le : (x : F) (z : ℤ) → capped_priority x ≡ ok z → z ≤ℤ pos 10
    unfolding capped_priority
    capped_priority-le x z h = ground (arith, trunc-le 10 x z)

    -- The score of a task in its queue never exceeds 20, also where its parts are no numbers.
    pub priority_at-le :
        (aging_factor created_at current : F) (base boost : ℤ)
        → p.le (priority_at aging_factor created_at current base boost) (p.lit 20 0) ≡ true
    unfolding priority_at
    priority_at-le aging_factor created_at current base boost =
        min_F-le laws (p.lit 20 0) _ (lit_num 20 0)

    min_F_mono :
        (c a b : F)
        → p.le c c ≡ true
        → p.le a a ≡ true
        → p.le b b ≡ true
        → p.le a b ≡ true
        → p.le (min_F c a) (min_F c b) ≡ true
    min_F_mono c a b n k m h = ground (
      arith,
      lt-le a c,
      lt-le b c,
      le_of_not-lt a c,
      le_of_not-lt b c,
      le_trans a b c,
      le_trans c a b,
    )

    max_F_mono :
        (c a b : F)
        → p.le c c ≡ true
        → p.le a a ≡ true
        → p.le b b ≡ true
        → p.le a b ≡ true
        → p.le (max_F c a) (max_F c b) ≡ true
    max_F_mono c a b n k m h = ground (
      arith,
      lt-le c a,
      lt-le c b,
      le_of_not-lt c a,
      le_of_not-lt c b,
      le_trans a b c,
      le_trans c a b,
    )

    max_F-num : (c a : F) → p.le c c ≡ true → p.le a a ≡ true → p.le (max_F c a) (max_F c a) ≡ true
    max_F-num c a n k = ground arith

    -- A task that waits longer is never ranked lower: with a factor that is not negative, and
    -- wherever the waiting times, their products and the sums are numbers, the score at a later time
    -- is at least the score at an earlier one.
    pub priority_at_mono :
        (aging_factor created_at early late : F) (base boost : ℤ)
        → let waited = λ (t : F). max_F (p.lit 0 0) (p.subtract t created_at) in
          let aged = λ (t : F). p.times (waited t) aging_factor in
          let sum = λ (t : F). p.add (p.of_int (base +ℤ boost)) (aged t) in
          p.le (p.lit 0 0) aging_factor ≡ true
          → p.le early late ≡ true
          → p.le (p.subtract early created_at) (p.subtract early created_at) ≡ true
          → p.le (p.subtract late created_at) (p.subtract late created_at) ≡ true
          → p.le (aged early) (aged early) ≡ true
          → p.le (aged late) (aged late) ≡ true
          → p.le (sum early) (sum early) ≡ true
          → p.le (sum late) (sum late) ≡ true
          → p.le
              (priority_at aging_factor created_at early base boost)
              (priority_at aging_factor created_at late base boost)
            ≡ true
    unfolding priority_at
    priority_at_mono aging_factor created_at early late base boost pf h se sl ae al xe xl =
        min_F_mono (p.lit 20 0) _ _ (lit_num 20 0) xe xl (
          add_mono _ _ _
            (times_mono _ _ _
              (max_F_mono (p.lit 0 0) _ _ (lit_num 0 0) se sl (subtract_mono _ _ _ h se sl)) pf ae
              al)
            xe xl)
