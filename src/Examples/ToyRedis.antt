-- ===== src/Examples/ToyRedis.antt =====
-- The store of the concrete platform keeps what Redis documents.
use mathlib.Core.Logic.{ite, if_pos, if_neg}
use cloud_multi_agent_manage.Prelude.{
  ℕ, Bool, ap, ◌∙◌, if◌then◌else◌, ◌≡◌, ◌≢◌, refl, sym, true, false, inl, inr, List, [], ◌∷◌, In,
}
use cloud_multi_agent_manage.Key.{Key, Pattern, matches}
use cloud_multi_agent_manage.Platform.{Result, ok, err}
use cloud_multi_agent_manage.Platform.Laws.{
  IsRedis, Entry, absent, written, hset_entry, zadd_entry, zrem_entry, sadd_entry, srem_entry,
}
use cloud_multi_agent_manage.Examples.ToyKey.{Key_discrete}
use cloud_multi_agent_manage.Examples.Toy.{
  toy, ToyStore, view, drop_key, present, is_present, selected, put,
}

In-drop_step :
    (j k i : Key) (l : List Key) (d : Dec (i ≡ k))
    → j ≢ k
    → (In j l → In j (drop_key k l))
    → In j (i ∷ l)
    → In j (ite d (drop_key k l) (i ∷ drop_key k l))
In-drop_step j k i l (yes q) n rest (inl e) = absurd (n (e ∙ q))
In-drop_step j k i l (yes q) n rest (inr m) = rest m
In-drop_step j k i l (no q) n rest (inl e) = inl e
In-drop_step j k i l (no q) n rest (inr m) = inr (rest m)

In-drop_key : (j k : Key) (l : List Key) → j ≢ k → In j l → In j (drop_key k l)
In-drop_key j k [] n h = elim h [ ]
In-drop_key j k (i ∷ l) n h = In-drop_step j k i l (Key_discrete i k) n (In-drop_key j k l n) h

In-keep_if : (k j : Key) (b : Bool) (l : List Key) → In k l → In k (if b then j ∷ l else l)
In-keep_if k j true l h = inr h
In-keep_if k j false l h = h

In-present_head :
    (k j : Key) (e : Entry ℕ) (l : List Key)
    → k ≡ j
    → e ≢ absent
    → In k (if is_present e then j ∷ l else l)
In-present_head k j absent l q n = absurd (n refl)
In-present_head k j (Entry.string t) l q n = inl q
In-present_head k j (Entry.hash h) l q n = inl q
In-present_head k j (Entry.set m) l q n = inl q
In-present_head k j (Entry.zset z) l q n = inl q

In-present_step :
    (k j : Key) (e : Entry ℕ) (s : ToyStore) (d : Dec (k ≡ j))
    → (view k s ≢ absent → In k (present s))
    → ite d e (view k s) ≢ absent
    → In k (present ((j, e) ∷ s))
In-present_step k j e s (yes q) rest n = In-present_head k j e (drop_key j (present s)) q n
In-present_step k j e s (no q) rest n =
    In-keep_if k j (is_present e) (drop_key j (present s)) (In-drop_key k j (present s) q (rest n))

pub In-present : (k : Key) (s : ToyStore) → view k s ≢ absent → In k (present s)
In-present k [] n = absurd (n refl)
In-present k ((j, e) ∷ s) n = In-present_step k j e s (Key_discrete k j) (In-present k s) n

pub In-selected :
    (q : Pattern) (k : Key) (l : List Key) → matches q k ≡ true → In k l → In k (selected q l)
In-selected q k [] m h = elim h [ ]
In-selected q k (j ∷ l) m (inl h) =
    let t : matches q j ≡ true = ap (matches q) (sym h) ∙ m in rw t (inl h)
In-selected q k (j ∷ l) m (inr h) =
    In-keep_if k j (matches q j) (selected q l) (In-selected q k l m h)

pub put-written :
    (k : Key) (s : ToyStore) (r : Result (Entry ℕ)) → put k s r ≡ written (λ e. (k, e) ∷ s) r
put-written k s (ok e) = refl
put-written k s (err x) = refl

abbrev pub toy-IsRedis : IsRedis ⦃p = toy⦄
toy-IsRedis = record {
  view = view;
  write = λ k e s. (k, e) ∷ s;
  view-write_self = λ k e s. if_pos (Key_discrete k k) refl e (view k s);
  view-write_ne = λ j k e s n. if_neg (Key_discrete j k) n e (view j s);
  get_lem = λ k s. refl;
  set_lem = λ k t s. refl;
  setex_lem = λ k t n s. refl;
  delete_lem = λ k s. refl;
  hgetall_lem = λ k s. refl;
  hset_lem = λ k m s. put-written k s (hset_entry m (view k s));
  zadd_lem = λ k m x s. put-written k s (zadd_entry m x (view k s));
  zrem_lem = λ k m s. put-written k s (zrem_entry m (view k s));
  zcard_lem = λ k s. refl;
  sadd_lem = λ k m s. put-written k s (sadd_entry m (view k s));
  srem_lem = λ k m s. put-written k s (srem_entry m (view k s));
  smembers_lem = λ k s. refl;
  scard_lem = λ k s. refl;
  type_lem = λ k s. refl;
  expire_lem = λ j k n s. refl;
  keys-In = λ q k s m n. In-selected q k (present s) m (In-present k s n);
}
