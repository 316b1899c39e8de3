-- ===== src/Stepper/Events.antt =====
-- grbl_stepper.c: the three axes over the events of a segment.
use ecmc_plugin_grbl.Base.{ℕ, suc, ◌≡◌, refl, sym, ◌∙◌, if◌then◌else◌}
use ecmc_plugin_grbl.Base.Int.{ℤ}
use ecmc_plugin_grbl.Base.Float.{Vec3, vec3}
use ecmc_plugin_grbl.Stepper.{
  StBlock, Stepper, the_block, step_axes, axis_counter, axis_steps, one_step,
}
use ecmc_plugin_grbl.Stepper.Axis.{
  counter_after, steps_taken, travelled, travel-event, travelled-zero,
}

-- The counters and positions of the three axes after `n` events.
abbrev pub counters : StBlock → Vec3 ℕ → Vec3 ℕ → ℕ → Vec3 ℕ
counters b steps c n =
    vec3 (counter_after b.step_event_count steps.x c.x n)
      (counter_after b.step_event_count steps.y c.y n)
      (counter_after b.step_event_count steps.z c.z n)

abbrev pub positions : StBlock → Vec3 ℕ → Vec3 ℕ → Vec3 ℤ → ℕ → Vec3 ℤ
positions b steps c p n =
    vec3 (travelled b.direction_bits.x (steps_taken b.step_event_count steps.x c.x n) p.x)
      (travelled b.direction_bits.y (steps_taken b.step_event_count steps.y c.y n) p.y)
      (travelled b.direction_bits.z (steps_taken b.step_event_count steps.z c.z n) p.z)

-- What an event makes of the positions.
abbrev moved : StBlock → Vec3 ℕ → Vec3 ℕ → Vec3 ℤ → Vec3 ℤ
moved b steps c p =
    vec3
      (if axis_steps b.step_event_count steps.x c.x then one_step b.direction_bits.x p.x else p.x)
      (if axis_steps b.step_event_count steps.y c.y then one_step b.direction_bits.y p.y else p.y)
      (if axis_steps b.step_event_count steps.z c.z then one_step b.direction_bits.z p.z else p.z)

moved-positions :
    (b : StBlock) (steps c : Vec3 ℕ) (p : Vec3 ℤ) (n : ℕ)
    → moved b steps (counters b steps c n) (positions b steps c p n) ≡ positions b steps c p (suc n)
unfolding steps_taken
moved-positions b steps c p n = λ i.
    vec3
      (travel-event (axis_steps b.step_event_count steps.x (counters b steps c n).x)
        b.direction_bits.x (steps_taken b.step_event_count steps.x c.x n) p.x i)
      (travel-event (axis_steps b.step_event_count steps.y (counters b steps c n).y)
        b.direction_bits.y (steps_taken b.step_event_count steps.y c.y n) p.y i)
      (travel-event (axis_steps b.step_event_count steps.z (counters b steps c n).z)
        b.direction_bits.z (steps_taken b.step_event_count steps.z c.z n) p.z i)

module _ {T : Type 0} where
  abbrev pub block_of : Stepper T → StBlock
  block_of m = the_block m.st_block_buffer m.st.exec_block

  -- The axes of `m` are where `n` events from `start` take them.
  pub record AxesAt (start : Stepper T) (n : ℕ) (m : Stepper T) : Type 0 where
    pub same_block : block_of m ≡ block_of start
    pub same_null : m.null_block ≡ start.null_block
    pub same_steps : m.st.steps ≡ start.st.steps
    pub at_counters : m.st.counter ≡ counters (block_of start) start.st.steps start.st.counter n
    pub at_positions :
        m.sys_position
        ≡ positions (block_of start) start.st.steps start.st.counter start.sys_position n

  pub axes-start : (m : Stepper T) → AxesAt m 0 m
  unfolding counter_after steps_taken
  axes-start m = record {
    same_block = refl;
    same_null = refl;
    same_steps = refl;
    at_counters = refl;
    at_positions = λ i.
        vec3 (sym (travelled-zero (block_of m).direction_bits.x m.sys_position.x) i)
          (sym (travelled-zero (block_of m).direction_bits.y m.sys_position.y) i)
          (sym (travelled-zero (block_of m).direction_bits.z m.sys_position.z) i);
  }

  pub axes-step :
      (start : Stepper T) (n : ℕ) (m : Stepper T)
      → AxesAt start n m
      → AxesAt start (suc n) (step_axes m)
  unfolding step_axes counter_after steps_taken
  axes-step start n m a = record {
    same_block = a.same_block;
    same_null = a.same_null;
    same_steps = a.same_steps;
    at_counters = λ i.
        let count = (a.same_block i).step_event_count in
        let steps = a.same_steps i in
        let c = a.at_counters i in
        vec3 (axis_counter count steps.x c.x) (axis_counter count steps.y c.y)
          (axis_counter count steps.z c.z);
    at_positions =
        (λ i. moved (a.same_block i) (a.same_steps i) (a.at_counters i) (a.at_positions i))
        ∙ moved-positions (block_of start) start.st.steps start.st.counter start.sys_position n;
  }
