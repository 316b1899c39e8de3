-- ===== src/Tests/Stepping.antt =====
-- Examples for the step interrupt, with numbers in the place of times.
use ecmc_plugin_grbl.Base.{ℕ, ◌≡◌, refl, arith, true, false, [], ◌∷◌}
use ecmc_plugin_grbl.Base.Int.{pos}
use ecmc_plugin_grbl.Base.Float.{vec3}
use ecmc_plugin_grbl.Stepper.{
  StBlock, Segment, Stepper, zero_st_block, load_block, load_segment, main_rt_thread, execute_event,
  step_axes, end_event, axis_counter,
}
use ecmc_plugin_grbl.Stepper.Reset.{zero_st}
use ecmc_plugin_grbl.Stepper.Segments.{calls}
use ecmc_plugin_grbl.Stepper.Executed.{Executed}
use ecmc_plugin_grbl.Stepper.Block.{
  Segments, done, more, eighths, block_steps, block_counter, block_exact,
}
use ecmc_plugin_grbl.Tests.{system, no_requests}

-- A block of three events, that moves three steps forwards in x and two backwards in y, and a segment
-- that executes it.
abbrev diagonal : StBlock
diagonal = record {
  steps = vec3 24 16 0;
  step_event_count = 24;
  direction_bits = vec3 false true false;
}

abbrev three_events : Segment ℕ
three_events = record { n_step = 3; interrupt_time = 7; st_block_index = 1; amass_level = 0 }

abbrev waiting : Stepper ℕ
waiting = record {
  st = zero_st;
  st_block_buffer = zero_st_block ∷ diagonal ∷ [];
  segment_buffer = three_events ∷ [];
  segment_buffer_tail = 0;
  segment_buffer_head = 1;
  segment_next_head = 2;
  step_port_invert_mask = vec3 false false false;
  dir_port_invert_mask = vec3 false false false;
  busy = false;
  interrupt_enable = true;
  null_block = false;
  sys_position = vec3 (pos 10) (pos 10) (pos 10);
  sys = system;
  rt = no_requests;
}

waiting-moved : (calls 7 3 waiting).sys_position ≡ vec3 (pos 13) (pos 8) (pos 10)
unfolding calls main_rt_thread load_segment load_block execute_event step_axes end_event
    axis_counter
waiting-moved = refl

-- Two of three events at level 0, and the third one as four at level 2.
abbrev smoothed : Segments
smoothed = (0, 2) ∷ (2, 4) ∷ []

smoothed-eighths : eighths smoothed ≡ 24
unfolding eighths
smoothed-eighths = refl

block_exact_example : (block_steps 24 16 12 smoothed ≡ 2) × (block_counter 24 16 12 smoothed ≡ 12)
block_exact_example =
    block_exact 3 2 smoothed (more (omega arith) (more (omega arith) done)) (omega arith)
      (omega arith) (omega arith) smoothed-eighths
