-- ===== src/Coordinator/Pending.antt =====
-- services/coordinator_agent/main.py: the table `pending_decisions` as a state machine. Its steps are
-- the calls of `schedule_decision` and the ends of delayed decisions, in any order.
use cloud_multi_agent_manage.Prelude.{
  String, Bool, ◌≡◌, refl, true, false, inl, inr, Bool-cases, List, [], ◌∷◌, str_eq, arith,
  if◌then◌else◌,
}
use cloud_multi_agent_manage.Python.{is_one_of}
use cloud_multi_agent_manage.Coordinator.Events.{schedule_decision, pop_decision}

-- One step of the table.
pub data Step : List String → List String → Type 0 where
  schedules : (t : String) (pending : List String) → Step pending (schedule_decision t pending).1
  ends : (t : String) (pending : List String) → Step pending (pop_decision t pending)

-- The tables that the coordinator can have.
pub data Reachable : List String → Type 0 where
  initially : Reachable []
  after : (old new : List String) → Reachable old → Step old new → Reachable new

-- No task waits for two decisions.
abbrev pub IsSingle : List String → Type 0
IsSingle [] = Unit
IsSingle (t ∷ ts) = (is_one_of t ts ≡ false) × IsSingle ts

is_one_of-pop_decision :
    (t u : String) (ts : List String)
    → is_one_of u ts ≡ false
    → is_one_of u (pop_decision t ts) ≡ false
unfolding pop_decision
is_one_of-pop_decision t u [] h = refl
is_one_of-pop_decision t u (x ∷ ts) h = ground (arith, is_one_of-pop_decision t u ts)

IsSingle-if :
    (b : Bool) (x : String) (rest : List String)
    → is_one_of x rest ≡ false
    → IsSingle rest
    → IsSingle (if b then rest else x ∷ rest)
IsSingle-if true x rest n s = s
IsSingle-if false x rest n s = (n, s)

IsSingle-pop_decision : (t : String) (ts : List String) → IsSingle ts → IsSingle (pop_decision t ts)
unfolding pop_decision
IsSingle-pop_decision t [] s = tt
IsSingle-pop_decision t (x ∷ ts) (n, s) =
    IsSingle-if (str_eq x t) x (pop_decision t ts) (is_one_of-pop_decision t x ts n)
      (IsSingle-pop_decision t ts s)

IsSingle-schedule_decision :
    (t : String) (ts : List String) → IsSingle ts → IsSingle (schedule_decision t ts).1
unfolding schedule_decision
IsSingle-schedule_decision t ts s = elim (Bool-cases (is_one_of t ts)) [
  | inl e ↦ rw (schedule_decision, e) s
  | inr e ↦ rw (schedule_decision, e) (e, s)
]

IsSingle-Step : (old new : List String) → Step old new → IsSingle old → IsSingle new
IsSingle-Step old _ (schedules t _) s = IsSingle-schedule_decision t old s
IsSingle-Step old _ (ends t _) s = IsSingle-pop_decision t old s

-- Whatever events arrive and whichever decisions end, in any order, no task ever waits for two
-- delayed decisions.
pub IsSingle-Reachable : (pending : List String) → Reachable pending → IsSingle pending
IsSingle-Reachable _ initially = tt
IsSingle-Reachable pending (after old _ r step) =
    IsSingle-Step old pending step (IsSingle-Reachable old r)
