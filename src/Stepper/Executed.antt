-- ===== src/Stepper/Executed.antt =====
-- grbl_stepper.c: what the calls of `ecmc_grbl_main_rt_thread` that execute a segment do to the axes.
use ecmc_plugin_grbl.Base.{ℕ, ◌+◌, ◌*◌, ◌≤◌, ◌<◌, ◌≡◌, Bool, true, false, none, ◌==◌}
use ecmc_plugin_grbl.Base.Int.{ℤ}
use ecmc_plugin_grbl.Base.Float.{Vec3}
use ecmc_plugin_grbl.Stepper.{Stepper}
use ecmc_plugin_grbl.Stepper.Axis.{travelled}
use ecmc_plugin_grbl.Stepper.Events.{block_of}
use ecmc_plugin_grbl.Stepper.Segments.{next_segment}

-- `n` events of an axis: it moves by as many steps as the counter has passed the number of events of
-- the block.
pub record AxisExecuted (count n steps : ℕ) (backward : Bool) (before after : ℕ) (from to : ℤ)
    : Type 0 where
  pub taken : ℕ
  pub moved : to ≡ travelled backward taken from
  pub exact : after + taken * count ≡ before + n * steps
  pub bounded : after ≤ count

-- No axis has more steps than the block has events, and the counters fit.
pub record InBounds (count : ℕ) (steps counter : Vec3 ℕ) : Type 0 where
  pub events : count < 2147483648
  pub steps_x : steps.x ≤ count
  pub steps_y : steps.y ≤ count
  pub steps_z : steps.z ≤ count
  pub counter_x : counter.x ≤ count
  pub counter_y : counter.y ≤ count
  pub counter_z : counter.z ≤ count

module _ {T : Type 0} where
  -- The state after the segment that `start` has loaded.
  pub record Executed (start : Stepper T) (n tail : ℕ) (m : Stepper T) : Type 0 where
    pub done : m.st.exec_segment ≡ none
    pub advanced : m.segment_buffer_tail ≡ next_segment tail
    pub no_null : m.null_block ≡ start.null_block
    pub axis_x :
        AxisExecuted
          (block_of start).step_event_count
          n
          start.st.steps.x
          (block_of start).direction_bits.x
          start.st.counter.x
          m.st.counter.x
          start.sys_position.x
          m.sys_position.x
    pub axis_y :
        AxisExecuted
          (block_of start).step_event_count
          n
          start.st.steps.y
          (block_of start).direction_bits.y
          start.st.counter.y
          m.st.counter.y
          start.sys_position.y
          m.sys_position.y
    pub axis_z :
        AxisExecuted
          (block_of start).step_event_count
          n
          start.st.steps.z
          (block_of start).direction_bits.z
          start.st.counter.z
          m.st.counter.z
          start.sys_position.z
          m.sys_position.z

  -- The interrupt is enabled, no segment is being executed, and the buffer holds one.
  pub record Waits (m : Stepper T) : Type 0 where
    pub free : m.busy ≡ false
    pub enabled : m.interrupt_enable ≡ true
    pub no_segment : m.st.exec_segment ≡ none
    pub filled : m.segment_buffer_head == m.segment_buffer_tail ≡ false
