-- ===== src/Planner/Recalculate.antt =====
-- grbl_planner.c: `planner_recalculate`, its reverse and its forward pass. Each loop runs on fuel, and
-- BLOCK_BUFFER_SIZE iterations reach every index; `Passes` proves that the loops end.
use ecmc_plugin_grbl.Base.{ℕ, zero, suc, if◌then◌else◌, ◌==◌}
use ecmc_plugin_grbl.Base.Float.{Float}
use ecmc_plugin_grbl.Planner.{
  Block, Planner, plan_next_block_index, plan_prev_block_index, block_buffer_size, block_at,
  set_entry_speed, st_update_plan_block_parameters,
}

module _ (fl : Float) where
  -- `2*current->acceleration*current->millimeters`
  abbrev pub speed_change : Block fl.F → fl.F
  speed_change b = fl.mul (fl.mul (fl.literal 2 1) b.acceleration) b.millimeters

  -- The entry speed of the last block, whose exit speed is zero: `min_grbl(max_entry, 2*a*d)`.
  unfoldable pub last_entry_speed : Block fl.F → fl.F
  last_entry_speed b =
      if fl.lt b.max_entry_speed_sqr (speed_change b) then b.max_entry_speed_sqr else speed_change b

  -- The maximum entry speed that decelerates over the block to the next block's entry speed.
  unfoldable pub reverse_entry_speed : Block fl.F → Block fl.F → fl.F
  reverse_entry_speed current next =
      let entry_speed_sqr = fl.add next.entry_speed_sqr (speed_change current) in
      if fl.eq current.entry_speed_sqr current.max_entry_speed_sqr
      then current.entry_speed_sqr
      else if fl.lt entry_speed_sqr current.max_entry_speed_sqr
      then entry_speed_sqr
      else current.max_entry_speed_sqr

  -- `if (block_index == block_buffer_tail) { st_update_plan_block_parameters(); }`
  unfoldable pub notify_at_tail : Planner fl.F → ℕ → Planner fl.F
  notify_at_tail p block_index =
      if block_index == p.tail then st_update_plan_block_parameters fl p else p

  -- The body of the reverse pass at block `current`; `next` is the block after it.
  unfoldable pub reverse_step : Planner fl.F → ℕ → ℕ → Planner fl.F
  reverse_step p next current =
      let q = notify_at_tail p (plan_prev_block_index current) in
      set_entry_speed fl q current
        (reverse_entry_speed (block_at fl q current) (block_at fl q next))

  -- `while (block_index != block_buffer_planned)`, with the index at which it ends.
  unfoldable pub reverse_loop : ℕ → Planner fl.F → ℕ → ℕ → Planner fl.F × ℕ
  reverse_loop zero p next i = (p, i)
  reverse_loop (suc fuel) p next i =
      let rest = reverse_loop fuel (reverse_step p next i) i (plan_prev_block_index i) in
      if i == p.planned then (p, i) else rest

  -- Full acceleration over `current`, when that keeps the junction below the reverse pass's speed.
  unfoldable pub accelerate : Planner fl.F → fl.F → ℕ → ℕ → Planner fl.F
  accelerate p entry_speed_sqr current next =
      let reached = (block_at fl p next).entry_speed_sqr in
      if fl.lt (block_at fl p current).entry_speed_sqr reached
      then (if fl.lt entry_speed_sqr reached
          then record (set_entry_speed fl p next entry_speed_sqr) { planned = next }
          else p)
      else p

  -- The body of the forward pass, for the junction of `current` and `next`.
  unfoldable pub forward_step : Planner fl.F → ℕ → ℕ → Planner fl.F
  forward_step p current next =
      let c = block_at fl p current in
      let n = block_at fl p next in
      let q = accelerate p (fl.add c.entry_speed_sqr (speed_change c)) current next in
      if fl.eq (block_at fl q next).entry_speed_sqr n.max_entry_speed_sqr
      then record q { planned = next }
      else q

  -- `while (block_index != block_buffer_head)`, with the index at which it ends.
  unfoldable pub forward_loop : ℕ → Planner fl.F → ℕ → ℕ → Planner fl.F × ℕ
  forward_loop zero p current i = (p, i)
  forward_loop (suc fuel) p current i =
      let rest = forward_loop fuel (forward_step p current i) i (plan_next_block_index i) in
      if i == p.head then (p, i) else rest

  -- The reverse pass, from the last block: its index is `last`.
  unfoldable pub reverse_pass : Planner fl.F → ℕ → Planner fl.F
  reverse_pass p last =
      let q = set_entry_speed fl p last (last_entry_speed (block_at fl p last)) in
      let i = plan_prev_block_index last in
      if i == q.planned then notify_at_tail q i else (reverse_loop block_buffer_size q last i).0

  unfoldable pub forward_pass : Planner fl.F → Planner fl.F
  forward_pass p = (forward_loop block_buffer_size p p.planned (plan_next_block_index p.planned)).0

  unfoldable pub planner_recalculate : Planner fl.F → Planner fl.F
  planner_recalculate p =
      let last = plan_prev_block_index p.head in
      if last == p.planned then p else forward_pass (reverse_pass p last)

  unfoldable pub plan_cycle_reinitialize : Planner fl.F → Planner fl.F
  plan_cycle_reinitialize p =
      let q = st_update_plan_block_parameters fl p in
      planner_recalculate (record q { planned = q.tail })
