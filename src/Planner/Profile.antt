-- ===== src/Planner/Profile.antt =====
-- grbl_planner.c: the nominal speed of a block under the override values, and the bound on its entry
-- speed; `convert_delta_vector_to_unit_vector` and `limit_value_by_axis_maximum` of
-- grbl_nuts_bolts.c.
use ecmc_plugin_grbl.Base.{ℕ, zero, suc, not, if◌then◌else◌, ◌==◌}
use ecmc_plugin_grbl.Base.Int.{pos}
use ecmc_plugin_grbl.Base.Float.{Float, Vec3, vec3}
use ecmc_plugin_grbl.System.{System}
use ecmc_plugin_grbl.Planner.{
  Block, Planner, plan_next_block_index, block_buffer_size, block_at, set_block, zero_f,
}

module _ (fl : Float) where
  -- SOME_LARGE_VALUE and MINIMUM_FEED_RATE
  abbrev pub some_large_value : fl.F
  some_large_value = fl.literal 100000000000000000000000000000000000000 1

  abbrev pub minimum_feed_rate : fl.F
  minimum_feed_rate = fl.literal 1 1

  -- `speed *= (0.01*override)`
  abbrev pub scale : fl.F → ℕ → fl.F
  scale speed override = fl.mul speed (fl.mul (fl.literal 1 100) (fl.of_int (pos override)))

  unfoldable pub overridden_speed : System → Block fl.F → fl.F
  overridden_speed sys block =
      let fed =
        if not block.condition.no_feed_override
        then scale block.programmed_rate sys.f_override
        else block.programmed_rate in
      if block.condition.rapid_motion
      then scale block.programmed_rate sys.r_override
      else if fl.lt block.rapid_rate fed
      then block.rapid_rate
      else fed

  unfoldable pub plan_compute_profile_nominal_speed : System → Block fl.F → fl.F
  plan_compute_profile_nominal_speed sys block =
      let nominal_speed = overridden_speed sys block in
      if fl.lt minimum_feed_rate nominal_speed then nominal_speed else minimum_feed_rate

  -- The `max_entry_speed_sqr` that the code computes.
  unfoldable pub max_entry_speed : fl.F → fl.F → fl.F → fl.F
  max_entry_speed junction nominal_speed prev_nominal_speed =
      let slower =
        if fl.lt prev_nominal_speed nominal_speed
        then fl.mul prev_nominal_speed prev_nominal_speed
        else fl.mul nominal_speed nominal_speed in
      if fl.lt junction slower then junction else slower

  unfoldable pub plan_compute_profile_parameters : Block fl.F → fl.F → fl.F → Block fl.F
  plan_compute_profile_parameters block nominal_speed prev_nominal_speed = record block {
    max_entry_speed_sqr =
        max_entry_speed block.max_junction_speed_sqr nominal_speed prev_nominal_speed;
  }

  -- `while (block_index != block_buffer_head)`, with the index at which it ends.
  unfoldable pub update_loop : System → ℕ → Planner fl.F → ℕ → fl.F → Planner fl.F × fl.F
  update_loop sys zero p i prev_nominal_speed = (p, prev_nominal_speed)
  update_loop sys (suc fuel) p i prev_nominal_speed =
      let nominal_speed = plan_compute_profile_nominal_speed sys (block_at fl p i) in
      let block =
        plan_compute_profile_parameters (block_at fl p i) nominal_speed prev_nominal_speed in
      let rest =
        update_loop sys fuel (set_block fl p i block) (plan_next_block_index i) nominal_speed in
      if i == p.head then (p, prev_nominal_speed) else rest

  unfoldable pub plan_update_velocity_profile_parameters : System → Planner fl.F → Planner fl.F
  plan_update_velocity_profile_parameters sys p =
      let updated = update_loop sys block_buffer_size p p.tail some_large_value in
      record updated.0 { previous_nominal_speed = updated.1 }

  -- `magnitude += vector[idx]*vector[idx]` for a component that is not 0
  abbrev add_square : fl.F → fl.F → fl.F
  add_square magnitude v =
      if not (fl.eq v (zero_f fl)) then fl.add magnitude (fl.mul v v) else magnitude

  -- The magnitude, which it returns, and the vector that it leaves.
  unfoldable pub convert_delta_vector_to_unit_vector : Vec3 fl.F → fl.F × Vec3 fl.F
  convert_delta_vector_to_unit_vector v =
      let magnitude = fl.sqrt (add_square (add_square (add_square (zero_f fl) v.x) v.y) v.z) in
      let inv_magnitude = fl.div (fl.literal 1 1) magnitude in
      (
        magnitude,
        vec3 (fl.mul v.x inv_magnitude) (fl.mul v.y inv_magnitude) (fl.mul v.z inv_magnitude),
      )

  abbrev limit_axis : fl.F → fl.F → fl.F → fl.F
  limit_axis limit_value max_value unit =
      let axis_limit = fl.fabs (fl.div max_value unit) in
      let lowered = if fl.lt limit_value axis_limit then limit_value else axis_limit in
      if not (fl.eq unit (zero_f fl)) then lowered else limit_value

  unfoldable pub limit_value_by_axis_maximum : Vec3 fl.F → Vec3 fl.F → fl.F
  limit_value_by_axis_maximum max_value unit_vec =
      limit_axis
        (limit_axis (limit_axis some_large_value max_value.x unit_vec.x) max_value.y unit_vec.y)
        max_value.z unit_vec.z
