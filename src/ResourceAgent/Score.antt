-- ===== src/ResourceAgent/Score.antt =====
-- services/resource_agent/main.py: `score_node`.
use cloud_multi_agent_manage.Prelude.{String, not, Option, none, some, ◌&&◌, ◌||◌, if◌then◌else◌}
use cloud_multi_agent_manage.Prelude.Int.{pos}
use cloud_multi_agent_manage.Value.{Value, Payload, int, float, field, empty, lookup, get_or}
use cloud_multi_agent_manage.Platform.{Platform, Result, ok, err, key_error, ◌>>=◌}
use cloud_multi_agent_manage.Python.{float_of, is_text, is_true, max_F, true_divide}

module _ ⦃p : Platform⦄ where
  open p use {F}

  abbrev pub number : String → Payload F → Result F
  number k h = elim (lookup k h) [ none ↦ err (key_error k) | some v ↦ float_of v ]

  abbrev magnitude : F → F
  magnitude x = if p.lt x (p.lit 0 1) then p.subtract (p.lit 0 1) x else x

  -- `1.0 - abs(cpu_after - ram_after)`
  unfoldable pub balance_of : F → F → F
  balance_of cpu_after ram_after =
      p.subtract (p.lit 10 1) (magnitude (p.subtract cpu_after ram_after))

  -- `max(0.0, 1.0 - ((cpu_after + ram_after) / 2.0))`
  unfoldable pub fit_of : F → F → F
  fit_of cpu_after ram_after =
      max_F (p.lit 0 1)
        (p.subtract (p.lit 10 1) (p.divide (p.add cpu_after ram_after) (p.lit 20 1)))

  pub record Score : Type 0 where
    pub node_id : Value F
    pub fit_score : F
    pub balance_score : F
    pub cost : F
    pub cpu_utilization_after : F
    pub ram_utilization_after : F

  score : Value F → F → F → F → F → F → F → Result (Option Score)
  unfolding balance_of fit_of
  score node_id cpu_total ram_total cpu_used ram_used cpu_required ram_required = do
    cpu_after ← true_divide (p.add cpu_used cpu_required) cpu_total
    ram_after ← true_divide (p.add ram_used ram_required) ram_total
    let balance = balance_of cpu_after ram_after
    let fit = fit_of cpu_after ram_after
    cpu_share ← true_divide cpu_required cpu_total
    ram_share ← true_divide ram_required ram_total
    ok (
        some (record {
          node_id = node_id;
          fit_score = p.round4 (p.add (p.times (p.lit 7 1) fit) (p.times (p.lit 3 1) balance));
          balance_score = p.round4 balance;
          cost = p.round4 (p.add cpu_share ram_share);
          cpu_utilization_after = p.round4 cpu_after;
          ram_utilization_after = p.round4 ram_after;
        }))

  -- The second half of `score_node`. The node's identifier is read last in the source, where its
  -- absence is an error; `iter_node_hashes` has made sure of it.
  unfoldable pub score_if_room :
      Payload F → Payload F → F → F → F → F → F → F → Result (Option Score)
  unfolding score
  score_if_room h t cpu_total ram_total cpu_used ram_used cpu_required ram_required =
      if is_true (lookup "requires_gpu" t) && not (is_text "true" (lookup "gpu" h))
      then ok none
      else if p.lt (p.subtract cpu_total cpu_used) cpu_required
          || p.lt (p.subtract ram_total ram_used) ram_required
      then ok none
      else (elim (lookup "node_id" h) [
        | none ↦ err (key_error "node_id")
        | some node_id ↦
            score node_id cpu_total ram_total cpu_used ram_used cpu_required ram_required
      ])

  -- `none` is None: the node is failed, lacks a GPU or has no room.
  unfoldable pub score_node : Payload F → Payload F → Result (Option Score)
  unfolding score_if_room
  score_node h t = if is_text "failed" (lookup "status" h) then ok none else do
    cpu_total ← number "cpu_total" h
    ram_total ← number "ram_total_mb" h
    cpu_used ← float_of (get_or "cpu_used" (int (pos 0)) h)
    ram_used ← float_of (get_or "ram_used_mb" (int (pos 0)) h)
    cpu_required ← float_of (get_or "cpu_required" (int (pos 1)) t)
    ram_required ← float_of (get_or "ram_required_mb" (int (pos 512)) t)
    score_if_room h t cpu_total ram_total cpu_used ram_used cpu_required ram_required

  abbrev pub score_fields : Score → Payload F
  score_fields s = field "node_id" s.node_id (
      field "fit_score" (float s.fit_score) (
        field "balance_score" (float s.balance_score) (
          field "cost" (float s.cost) (
            field "cpu_utilization_after" (float s.cpu_utilization_after)
              (field "ram_utilization_after" (float s.ram_utilization_after) empty)))))
