-- ===== src/Tests/Planning.antt =====
-- Examples for grbl_planner.c.
use ecmc_plugin_grbl.Base.{◌≡◌, refl, false, arith, map}
use ecmc_plugin_grbl.Base.Int.{pos}
use ecmc_plugin_grbl.Base.Float.{vec3}
use ecmc_plugin_grbl.Planner.{
  plan_discard_current_block, plan_check_full_buffer, block_at, set_entry_speed,
  st_update_plan_block_parameters, update_block,
}
use ecmc_plugin_grbl.Planner.Recalculate.{
  reverse_loop, forward_loop, planner_recalculate, plan_cycle_reinitialize, reverse_pass,
  reverse_step, notify_at_tail, last_entry_speed, reverse_entry_speed, forward_pass, forward_step,
  accelerate,
}
use ecmc_plugin_grbl.Planner.Line.{plan_buffer_line, target_steps}
use ecmc_plugin_grbl.Planner.Profile.{some_large_value}
use ecmc_plugin_grbl.Planner.Passes.{motion}
use ecmc_plugin_grbl.Planner.Reprofile.{reprofiled}
use ecmc_plugin_grbl.Planner.Queue.{IsValid, queue, rest_of, discard-queue}
use ecmc_plugin_grbl.Planner.Ends.{passes_end, cycle_reinitialize-IsValid}
use ecmc_plugin_grbl.Planner.Push.{
  LineResult, motions, line_start, line_block, line_steps, is_still, buffer_line_refines,
}
use ecmc_plugin_grbl.Planner.Speed.{Order, Bounded}
use ecmc_plugin_grbl.Planner.Speed.Passes.{recalculate-Bounded, cycle_reinitialize-Bounded}
use ecmc_plugin_grbl.Protocol.Overrides.{apply_motion_override}
use ecmc_plugin_grbl.Protocol.Overrides.Replan.{apply_override-Bounded}
use ecmc_plugin_grbl.Tests.{core, whole, system, settings, empty_planner, busy_planner, line_data}

busy-IsValid : IsValid busy_planner
busy-IsValid = record {
  size = refl;
  tail = omega arith;
  head = omega arith;
  next_head = refl;
  planned = omega arith;
  between = omega arith;
  inside = λ e. absurd (omega arith);
}

empty-IsValid : IsValid empty_planner
empty-IsValid = record {
  size = refl;
  tail = omega arith;
  head = omega arith;
  next_head = refl;
  planned = omega arith;
  between = omega arith;
  inside = λ e. refl;
}

whole-Order : Order whole
whole-Order = record {
  irrefl = λ x. ground arith;
  trans = λ x y z h k. ground arith;
  eq_not_lt = λ x y h. ground arith;
}

discard-queue_example :
    queue whole (plan_discard_current_block whole busy_planner) ≡ rest_of (queue whole busy_planner)
discard-queue_example = discard-queue whole busy_planner busy-IsValid

passes_end_example :
    ((reverse_loop whole 16 busy_planner 0 15).1 ≡ 14)
    × ((forward_loop whole 16 busy_planner 0 15).1 ≡ 1)
passes_end_example =
    passes_end whole busy_planner busy-IsValid 0 15 15 (omega arith) (omega arith, omega arith)
      (omega arith, omega arith)

cycle_reinitialize-IsValid_example : IsValid (plan_cycle_reinitialize whole busy_planner)
cycle_reinitialize-IsValid_example =
    cycle_reinitialize-IsValid whole busy_planner busy-IsValid (λ e. omega arith)

buffer_line_refines_example :
    LineResult whole system busy_planner
      (target_steps whole settings (vec3 3 4 0))
      (line_start whole system settings
        (vec3 (pos 0) (pos 0) (pos 0))
        (vec3 3 4 0)
        line_data
        busy_planner)
      (line_block whole system settings
        (vec3 (pos 0) (pos 0) (pos 0))
        (vec3 3 4 0)
        line_data
        busy_planner)
      (is_still (
        line_steps whole system settings
          (vec3 (pos 0) (pos 0) (pos 0))
          (vec3 3 4 0)
          line_data
          busy_planner))
      false
      (plan_buffer_line whole system settings
        (vec3 (pos 0) (pos 0) (pos 0))
        (vec3 3 4 0)
        line_data
        busy_planner)
unfolding plan_check_full_buffer
buffer_line_refines_example =
    buffer_line_refines whole system settings (vec3 (pos 0) (pos 0) (pos 0)) (vec3 3 4 0) line_data
      busy_planner busy-IsValid refl

recalculate-Bounded_example :
    Bounded whole whole-Order (block_at whole (planner_recalculate whole busy_planner) 0)
recalculate-Bounded_example =
    recalculate-Bounded whole whole-Order busy_planner busy-IsValid 0 (omega arith) (omega arith)
      (omega arith) tt

cycle_reinitialize-Bounded_example :
    Bounded whole whole-Order (block_at whole (plan_cycle_reinitialize whole busy_planner) 15)
cycle_reinitialize-Bounded_example =
    cycle_reinitialize-Bounded whole whole-Order busy_planner busy-IsValid 15 (omega arith)
      (omega arith) (omega arith)

apply_override-Bounded_example :
    IsValid (apply_motion_override whole 50 100 core).planner
    × (motions whole (apply_motion_override whole 50 100 core).planner
        ≡ map (motion whole) (
            reprofiled whole
              (record core.sys { f_override = 50; r_override = 100; report_ovr_counter = 0 })
              (some_large_value whole)
              (queue whole core.planner)))
    × Bounded whole whole-Order
        (block_at whole (apply_motion_override whole 50 100 core).planner 15)
apply_override-Bounded_example =
    apply_override-Bounded whole whole-Order 50 100 core busy-IsValid (λ e. omega arith) 15
      (omega arith) (omega arith) (omega arith)

-- Re-planning an empty queue, as an override in the idle state does, moves the planned pointer before
-- the tail.
planned_leaves_empty_queue : (plan_cycle_reinitialize whole empty_planner).planned ≡ 15
unfolding plan_cycle_reinitialize planner_recalculate reverse_pass reverse_loop reverse_step
    notify_at_tail set_entry_speed last_entry_speed reverse_entry_speed forward_pass forward_loop
    forward_step accelerate st_update_plan_block_parameters update_block
planned_leaves_empty_queue = refl
