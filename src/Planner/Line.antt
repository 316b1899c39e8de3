-- ===== src/Planner/Line.antt =====
-- grbl_planner.c: `plan_buffer_line`, split where the code has its stages. `int32_t` values are
-- integers without bound here: their overflow is undefined in C.
use ecmc_plugin_grbl.Base.{ℕ, Bool, true, false, ◌||◌, if◌then◌else◌, ◌==◌, ltb}
use ecmc_plugin_grbl.Base.Int.{ℤ, ◌-ℤ◌, abs}
use ecmc_plugin_grbl.Base.Float.{Float, Vec3, vec3}
use ecmc_plugin_grbl.System.{System}
use ecmc_plugin_grbl.Settings.{Settings}
use ecmc_plugin_grbl.Planner.{
  Block, LineData, Planner, plan_next_block_index, set_block, zero_block, zero_f,
}
use ecmc_plugin_grbl.Planner.Recalculate.{planner_recalculate}
use ecmc_plugin_grbl.Planner.Profile.{
  plan_compute_profile_nominal_speed, plan_compute_profile_parameters, some_large_value,
  convert_delta_vector_to_unit_vector, limit_value_by_axis_maximum,
}

-- `max_grbl(a, b)`
abbrev pub max_ℕ : ℕ → ℕ → ℕ
max_ℕ a b = if ltb b a then a else b

module _ (fl : Float) where
  -- `target_steps[]`
  unfoldable pub target_steps : Settings fl.F → Vec3 fl.F → Vec3 ℤ
  target_steps settings target =
      vec3 (fl.lround (fl.mul target.x settings.steps_per_mm.x))
        (fl.lround (fl.mul target.y settings.steps_per_mm.y))
        (fl.lround (fl.mul target.z settings.steps_per_mm.z))

  abbrev pub step_counts : Vec3 ℤ → Vec3 ℤ → Vec3 ℕ
  step_counts target position =
      vec3 (abs (target.x -ℤ position.x)) (abs (target.y -ℤ position.y))
        (abs (target.z -ℤ position.z))

  abbrev delta_mm : ℤ → ℤ → fl.F → fl.F
  delta_mm target position steps_per_mm = fl.div (fl.of_int (target -ℤ position)) steps_per_mm

  -- `unit_vec[]` before it is normalised
  abbrev pub deltas : Settings fl.F → Vec3 ℤ → Vec3 ℤ → Vec3 fl.F
  deltas settings target position =
      vec3 (delta_mm target.x position.x settings.steps_per_mm.x)
        (delta_mm target.y position.y settings.steps_per_mm.y)
        (delta_mm target.z position.z settings.steps_per_mm.z)

  -- The block up to the test for a zero-length one.
  unfoldable pub start_block : LineData fl.F → Vec3 ℕ → Vec3 fl.F → Block fl.F
  start_block pl_data steps delta = record (zero_block fl) {
    condition = pl_data.condition;
    spindle_speed = pl_data.spindle_speed;
    steps = steps;
    step_event_count = max_ℕ (max_ℕ (max_ℕ 0 steps.x) steps.y) steps.z;
    direction_bits =
        vec3 (fl.lt delta.x (zero_f fl)) (fl.lt delta.y (zero_f fl)) (fl.lt delta.z (zero_f fl));
  }

  -- The length, acceleration and rates of a block with the given direction.
  unfoldable pub set_rates :
      Settings fl.F → LineData fl.F → fl.F → Vec3 fl.F → Block fl.F → Block fl.F
  set_rates settings pl_data millimeters unit_vec block =
      let rapid_rate = limit_value_by_axis_maximum fl settings.max_rate unit_vec in
      record block {
        millimeters = millimeters;
        acceleration = limit_value_by_axis_maximum fl settings.acceleration unit_vec;
        rapid_rate = rapid_rate;
        programmed_rate =
            if block.condition.rapid_motion
            then rapid_rate
            else if block.condition.inverse_time
            then fl.mul pl_data.feed_rate millimeters
            else pl_data.feed_rate;
      }

  -- MINIMUM_JUNCTION_SPEED squared
  abbrev minimum_junction_speed_sqr : fl.F
  minimum_junction_speed_sqr = fl.mul (fl.literal 0 1) (fl.literal 0 1)

  abbrev junction_cos_theta : Vec3 fl.F → Vec3 fl.F → fl.F
  junction_cos_theta previous unit =
      fl.sub (fl.sub (fl.sub (zero_f fl) (fl.mul previous.x unit.x)) (fl.mul previous.y unit.y))
        (fl.mul previous.z unit.z)

  abbrev difference : Vec3 fl.F → Vec3 fl.F → Vec3 fl.F
  difference unit previous =
      vec3 (fl.sub unit.x previous.x) (fl.sub unit.y previous.y) (fl.sub unit.z previous.z)

  -- The speed at the junction of two lines that are neither parallel nor opposite.
  unfoldable pub corner_speed_sqr : Settings fl.F → Vec3 fl.F → Vec3 fl.F → fl.F
  corner_speed_sqr settings previous unit =
      let junction_unit_vec =
        (convert_delta_vector_to_unit_vector fl (difference unit previous)).1 in
      let junction_acceleration =
        limit_value_by_axis_maximum fl settings.acceleration junction_unit_vec in
      let sin_theta_d2 =
        fl.sqrt
          (fl.mul (fl.literal 1 2) (fl.sub (fl.literal 1 1) (junction_cos_theta previous unit))) in
      let speed =
        fl.div (fl.mul (fl.mul junction_acceleration settings.junction_deviation) sin_theta_d2)
          (fl.sub (fl.literal 1 1) sin_theta_d2) in
      if fl.lt speed minimum_junction_speed_sqr then minimum_junction_speed_sqr else speed

  unfoldable pub max_junction_speed : Settings fl.F → Vec3 fl.F → Vec3 fl.F → fl.F
  max_junction_speed settings previous unit =
      let cos_theta = junction_cos_theta previous unit in
      if fl.lt (fl.literal 999999 1000000) cos_theta
      then minimum_junction_speed_sqr
      else if fl.lt cos_theta (fl.neg (fl.literal 999999 1000000))
      then some_large_value fl
      else corner_speed_sqr settings previous unit

  -- The rest of the block: a queue that is empty, or a system motion, starts from rest.
  unfoldable pub finish_block :
      Settings fl.F → LineData fl.F → Planner fl.F → Vec3 fl.F → Block fl.F → Block fl.F
  finish_block settings pl_data p delta block =
      let unit = convert_delta_vector_to_unit_vector fl delta in
      record (set_rates settings pl_data unit.0 unit.1 block) {
        max_junction_speed_sqr =
            if (p.head == p.tail) || block.condition.system_motion
            then zero_f fl
            else max_junction_speed settings p.previous_unit_vec unit.1;
      }

  -- The update of the planner for a block that is not a system motion.
  unfoldable pub push_block : System → Planner fl.F → Vec3 ℤ → Vec3 fl.F → Block fl.F → Planner fl.F
  push_block sys p target unit_vec block =
      let nominal_speed = plan_compute_profile_nominal_speed fl sys block in
      let profiled =
        plan_compute_profile_parameters fl block nominal_speed p.previous_nominal_speed in
      record (set_block fl p p.head profiled) {
        previous_nominal_speed = nominal_speed;
        previous_unit_vec = unit_vec;
        position = target;
        head = p.next_head;
        next_head = plan_next_block_index p.next_head;
      }

  -- PLAN_OK is `true` and PLAN_EMPTY_BLOCK `false`.
  unfoldable pub plan_buffer_line :
      System
      → Settings fl.F
      → Vec3 ℤ
      → Vec3 fl.F
      → LineData fl.F
      → Planner fl.F
      → Bool × Planner fl.F
  plan_buffer_line sys settings sys_position target pl_data p =
      let steps = target_steps settings target in
      let position = if pl_data.condition.system_motion then sys_position else p.position in
      let delta = deltas settings steps position in
      let started = start_block pl_data (step_counts steps position) delta in
      let finished = finish_block settings pl_data p delta started in
      if started.step_event_count == 0
      then (false, set_block fl p p.head started)
      else if pl_data.condition.system_motion
      then (true, set_block fl p p.head finished)
      else (
        true,
        planner_recalculate fl
            (push_block sys p steps (convert_delta_vector_to_unit_vector fl delta).1 finished),
      )
