-- ===== src/ResourceAgent/Room.antt =====
-- A node that gets a score has room for the task.
use cloud_multi_agent_manage.Prelude.{
  Bool, ◌≡◌, true, false, some, none, arith, refl, if◌then◌else◌, Option, ◌&&◌, not,
}
use cloud_multi_agent_manage.Prelude.Int.{pos}
use cloud_multi_agent_manage.Value.{Payload, lookup, get_or, int}
use cloud_multi_agent_manage.Platform.{Platform, Result, ok, err, ◌>>=◌}
use cloud_multi_agent_manage.Python.{float_of, is_text, is_true}
use cloud_multi_agent_manage.ResourceAgent.Score.{score_node, Score, number, score_if_room}

module _ ⦃p : Platform⦄ where
  open p use {F}

  -- What `score_node` reads of the node `h` and of the task `t`, before it compares.
  pub record Reads (h t : Payload F) : Type 0 where
    pub cpu_total : F
    pub ram_total : F
    pub cpu_used : F
    pub ram_used : F
    pub cpu_required : F
    pub ram_required : F
    pub cpu_total_eq : number "cpu_total" h ≡ ok cpu_total
    pub ram_total_eq : number "ram_total_mb" h ≡ ok ram_total
    pub cpu_used_eq : float_of (get_or "cpu_used" (int (pos 0)) h) ≡ ok cpu_used
    pub ram_used_eq : float_of (get_or "ram_used_mb" (int (pos 0)) h) ≡ ok ram_used
    pub cpu_required_eq : float_of (get_or "cpu_required" (int (pos 1)) t) ≡ ok cpu_required
    pub ram_required_eq : float_of (get_or "ram_required_mb" (int (pos 512)) t) ≡ ok ram_required

  -- The node is not failed, has a GPU if the task needs one, and has as much free as the task asks for.
  abbrev pub HasRoom : (h t : Payload F) → Reads h t → Type 0
  HasRoom h t r =
      (is_text "failed" (lookup "status" h) ≡ false)
      × (is_true (lookup "requires_gpu" t) && not (is_text "true" (lookup "gpu" h)) ≡ false)
      × (p.lt (p.subtract r.cpu_total r.cpu_used) r.cpu_required ≡ false)
      × (p.lt (p.subtract r.ram_total r.ram_used) r.ram_required ≡ false)

  score_if_room-some :
      (h t : Payload F) (a b c d e f : F) (s : Score)
      → score_if_room h t a b c d e f ≡ ok (some s)
      → (is_true (lookup "requires_gpu" t) && not (is_text "true" (lookup "gpu" h)) ≡ false)
        × (p.lt (p.subtract a c) e ≡ false)
        × (p.lt (p.subtract b d) f ≡ false)
  unfolding score_if_room
  score_if_room-some h t a b c d e f s x = ground arith

  -- A chain of six readings that ends in a score, taken apart.
  reads-some :
      (failed : Bool) (r0 r1 r2 r3 r4 r5 : Result F)
      (k : F → F → F → F → F → F → Result (Option Score)) (s : Score)
      → (if failed
          then ok none
          else do a ← r0; b ← r1; c ← r2; d ← r3; e ← r4; f ← r5; k a b c d e f)
        ≡ ok (some s)
      → (failed ≡ false)
        × (a b c d e f : F) × (r0 ≡ ok a)
        × (r1 ≡ ok b)
        × (r2 ≡ ok c)
        × (r3 ≡ ok d)
        × (r4 ≡ ok e)
        × (r5 ≡ ok f)
        × (k a b c d e f ≡ ok (some s))
  reads-some true r0 r1 r2 r3 r4 r5 k s h = cc
  reads-some false (err x) r1 r2 r3 r4 r5 k s h = cc
  reads-some false (ok a) (err x) r2 r3 r4 r5 k s h = cc
  reads-some false (ok a) (ok b) (err x) r3 r4 r5 k s h = cc
  reads-some false (ok a) (ok b) (ok c) (err x) r4 r5 k s h = cc
  reads-some false (ok a) (ok b) (ok c) (ok d) (err x) r5 k s h = cc
  reads-some false (ok a) (ok b) (ok c) (ok d) (ok e) (err x) k s h = cc
  reads-some false (ok a) (ok b) (ok c) (ok d) (ok e) (ok f) k s h =
      (refl, a, b, c, d, e, f, refl, refl, refl, refl, refl, refl, h)

  -- Every node that `score_node` scores for a task is not failed, has a GPU if the task requires one, and
  -- its free CPU and memory are not below what the task requires.
  pub score_node-HasRoom :
      (h t : Payload F) (s : Score) → score_node h t ≡ ok (some s) → (r : Reads h t) × HasRoom h t r
  unfolding score_node
  score_node-HasRoom h t s e =
      let (n, a, b, c, d, f, g, ra, rb, rc, rd, rf, rg, last) =
        reads-some (is_text "failed" (lookup "status" h)) (number "cpu_total" h)
          (number "ram_total_mb" h) (float_of (get_or "cpu_used" (int (pos 0)) h))
          (float_of (get_or "ram_used_mb" (int (pos 0)) h))
          (float_of (get_or "cpu_required" (int (pos 1)) t))
          (float_of (get_or "ram_required_mb" (int (pos 512)) t)) (score_if_room h t) s e in
      let r : Reads h t = record {
        cpu_total = a;
        ram_total = b;
        cpu_used = c;
        ram_used = d;
        cpu_required = f;
        ram_required = g;
        cpu_total_eq = ra;
        ram_total_eq = rb;
        cpu_used_eq = rc;
        ram_used_eq = rd;
        cpu_required_eq = rf;
        ram_required_eq = rg;
      } in
      let (x, y, z) = score_if_room-some h t a b c d f g s last in (r, (n, x, y, z))
