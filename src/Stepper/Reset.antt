-- ===== src/Stepper/Reset.antt =====
-- grbl_stepper.c: `st_wake_up` and `st_reset`.
use ecmc_plugin_grbl.Base.{ℕ, ◌/◌, ◌%◌, Bool, true, false, none, ◌==◌}
use ecmc_plugin_grbl.Base.Float.{Vec3, vec3}
use ecmc_plugin_grbl.Stepper.{St, Stepper, stop_interrupt}

-- The variables that `st_reset` clears.
abbrev pub zero_st : St
zero_st = record {
  counter = vec3 0 0 0;
  steps = vec3 0 0 0;
  step_outbits = vec3 false false false;
  dir_outbits = vec3 false false false;
  step_count = 0;
  exec_block_index = 0;
  exec_block = none;
  exec_segment = none;
}

-- A mask of the settings has a bit for each axis.
abbrev pub axis_bits : ℕ → Vec3 Bool
axis_bits mask = vec3 (mask % 2 == 1) (mask / 2 % 2 == 1) (mask / 4 % 2 == 1)

module _ {T : Type 0} where
  -- `st_wake_up`
  unfoldable pub st_wake_up : Stepper T → Stepper T
  st_wake_up m = record m { interrupt_enable = true }

  -- `st_generate_step_dir_invert_masks`, on `settings.step_invert_mask` and `settings.dir_invert_mask`
  unfoldable pub st_generate_step_dir_invert_masks : ℕ → ℕ → Stepper T → Stepper T
  st_generate_step_dir_invert_masks step_invert_mask dir_invert_mask m = record m {
    step_port_invert_mask = axis_bits step_invert_mask;
    dir_port_invert_mask = axis_bits dir_invert_mask;
  }

  -- `st_reset`, on the variables of the interrupt: those of the preparation are not modelled.
  unfoldable pub st_reset : ℕ → ℕ → Stepper T → Stepper T
  unfolding st_generate_step_dir_invert_masks
  st_reset step_invert_mask dir_invert_mask m =
      let emptied : Stepper T = record (stop_interrupt m) {
        segment_buffer_tail = 0;
        segment_buffer_head = 0;
        segment_next_head = 1;
      } in
      let masked = st_generate_step_dir_invert_masks step_invert_mask dir_invert_mask emptied in
      record masked { st = record zero_st { dir_outbits = masked.dir_port_invert_mask } }
