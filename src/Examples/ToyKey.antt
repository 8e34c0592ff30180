-- ===== src/Examples/ToyKey.antt =====
-- The keys of Redis compared by computation, for the concrete store.
use Prim.Native.String.{String}
use cloud_multi_agent_manage.Prelude.{
  arith, ◌≡◌, refl, sym, ap, ◌∙◌, ℕ, zero, suc, Bool, true, false, leb, ◌&&◌, str_eq, eq_iff,
  eq_refl,
}
use cloud_multi_agent_manage.Key.{Key}

-- A number for the constructor and the two texts of a key, by which two keys are compared.
abbrev key_code : Key → ℕ × String × String
key_code (Key.task s) = (0, s, "")
key_code (Key.node s) = (1, s, "")
key_code (Key.running s) = (2, s, "")
key_code Key.waiting = (3, "", "")
key_code (Key.class_queue s) = (4, s, "")
key_code (Key.classified s) = (5, s, "")
key_code (Key.sla s) = (6, s, "")
key_code (Key.forecast s) = (7, s, "")
key_code Key.forecast_latest = (8, "", "")
key_code (Key.decision_made s) = (9, s, "")
key_code (Key.proposal s t) = (10, s, t)
key_code Key.experiment_active = (11, "", "")
key_code Key.experiment_mode = (12, "", "")
key_code Key.last_action_ts = (13, "", "")
key_code Key.auto_node_sequence = (14, "", "")

abbrev key_of : ℕ × String × String → Key
key_of (zero, s, _) = Key.task s
key_of (suc zero, s, _) = Key.node s
key_of (suc (suc zero), s, _) = Key.running s
key_of (suc (suc (suc zero)), _, _) = Key.waiting
key_of (suc (suc (suc (suc zero))), s, _) = Key.class_queue s
key_of (suc (suc (suc (suc (suc zero)))), s, _) = Key.classified s
key_of (suc (suc (suc (suc (suc (suc zero))))), s, _) = Key.sla s
key_of (suc (suc (suc (suc (suc (suc (suc zero)))))), s, _) = Key.forecast s
key_of (suc (suc (suc (suc (suc (suc (suc (suc zero))))))), _, _) = Key.forecast_latest
key_of (suc (suc (suc (suc (suc (suc (suc (suc (suc zero)))))))), s, _) = Key.decision_made s
key_of (suc (suc (suc (suc (suc (suc (suc (suc (suc (suc zero))))))))), s, t) = Key.proposal s t
key_of (suc (suc (suc (suc (suc (suc (suc (suc (suc (suc (suc zero)))))))))), _, _) =
    Key.experiment_active
key_of (suc (suc (suc (suc (suc (suc (suc (suc (suc (suc (suc (suc zero))))))))))), _, _) =
    Key.experiment_mode
key_of (suc (suc (suc (suc (suc (suc (suc (suc (suc (suc (suc (suc (suc zero)))))))))))), _, _) =
    Key.last_action_ts
key_of _ = Key.auto_node_sequence

key_of-key_code : (k : Key) → key_of (key_code k) ≡ k
key_of-key_code (Key.task s) = refl
key_of-key_code (Key.node s) = refl
key_of-key_code (Key.running s) = refl
key_of-key_code Key.waiting = refl
key_of-key_code (Key.class_queue s) = refl
key_of-key_code (Key.classified s) = refl
key_of-key_code (Key.sla s) = refl
key_of-key_code (Key.forecast s) = refl
key_of-key_code Key.forecast_latest = refl
key_of-key_code (Key.decision_made s) = refl
key_of-key_code (Key.proposal s t) = refl
key_of-key_code Key.experiment_active = refl
key_of-key_code Key.experiment_mode = refl
key_of-key_code Key.last_action_ts = refl
key_of-key_code Key.auto_node_sequence = refl

abbrev is_same_key : Key → Key → Bool
is_same_key k j =
    let (m, s, t) = key_code k in
    let (n, u, v) = key_code j in leb m n && leb n m && str_eq s u && str_eq t v

same_number :
    (m n : ℕ) (s u t v : String) → (leb m n && leb n m && str_eq s u && str_eq t v) ≡ true → m ≡ n
same_number m n s u t v h = ground arith

same_texts :
    (b c : Bool) (s u t v : String)
    → (b && c && str_eq s u && str_eq t v) ≡ true
    → (s ≡ u) × (t ≡ v)
same_texts true true s u t v h = ground (arith, eq_iff s u, eq_iff t v)
same_texts true false s u t v h = cc
same_texts false c s u t v h = cc

pub is_same_key-path : (k j : Key) → is_same_key k j ≡ true → k ≡ j
is_same_key-path k j h =
    let (m, s, t) = key_code k in
    let (n, u, v) = key_code j in
    let e = same_number m n s u t v h in
    let (f, g) = same_texts (leb m n) (leb n m) s u t v h in
    sym (key_of-key_code k) ∙ ap key_of (λ i. (e i, f i, g i)) ∙ key_of-key_code j

pub is_same_key_refl : (k : Key) → is_same_key k k ≡ true
is_same_key_refl k = let (m, s, t) = key_code k in ground (arith, eq_refl s, eq_refl t)

abbrev decide : {A : Type 0} → (b : Bool) → (b ≡ true → A) → (A → b ≡ true) → Dec A
decide true f g = yes (f refl)
decide false f g = no (λ a. cc (g a))

abbrev pub Key_discrete : Discrete Key
Key_discrete k j =
    decide (is_same_key k j) (is_same_key-path k j)
      (λ h. ap (is_same_key k) (sym h) ∙ is_same_key_refl k)
