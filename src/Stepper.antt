-- ===== src/Stepper.antt =====
-- grbl_stepper.c: the ring of segments and `ecmc_grbl_main_rt_thread`, which the realtime thread of ecmc
-- calls to execute one step event. A segment is a number of step events of a block; a pointer to a
-- segment or a block is its index in the buffer. The preparation of segments is not modelled.
pub mod Reset
pub mod Axis
pub mod Events
pub mod Segments
pub mod Executed
pub mod Block
use ecmc_plugin_grbl.Base.{
  ℕ, ◌+◌, ◌-◌, ◌/◌, ◌%◌, ◌^◌, Bool, true, false, not, ◌||◌, ◌&&◌, List, Option, none, some, ltb,
  ◌==◌, if◌then◌else◌, get_or,
}
use ecmc_plugin_grbl.Base.Int.{ℤ, pos, ◌+ℤ◌, ◌-ℤ◌}
use ecmc_plugin_grbl.Base.Float.{Vec3, vec3}
use ecmc_plugin_grbl.System.{State, homing, System, RtFlags, exec_none, set_exec_state_flag}

-- SEGMENT_BUFFER_SIZE
abbrev pub segment_buffer_size : ℕ
segment_buffer_size = 32

-- `st_block_t`, with the members that the interrupt reads.
pub record StBlock : Type 0 where
  pub steps : Vec3 ℕ
  pub step_event_count : ℕ
  pub direction_bits : Vec3 Bool

-- `segment_t`; `T` is the type of the time between two interrupts.
pub record Segment (T : Type 0) : Type 0 where
  pub n_step : ℕ
  pub interrupt_time : T
  pub st_block_index : ℕ
  pub amass_level : ℕ

-- `stepper_t`; the output bits are one for each axis.
pub record St : Type 0 where
  pub counter : Vec3 ℕ
  pub steps : Vec3 ℕ
  pub step_outbits : Vec3 Bool
  pub dir_outbits : Vec3 Bool
  pub step_count : ℕ
  pub exec_block_index : ℕ
  pub exec_block : Option ℕ
  pub exec_segment : Option ℕ

-- The static variables, `stepperInterruptEnable` and `sys_position`, and what the interrupt shares
-- with the main loop. `null_block` says that a NULL `st.exec_block` has been read, which is undefined
-- in C: the fields tell nothing about the program from there on.
pub record Stepper (T : Type 0) : Type 0 where
  pub st : St
  pub st_block_buffer : List StBlock
  pub segment_buffer : List (Segment T)
  pub segment_buffer_tail : ℕ
  pub segment_buffer_head : ℕ
  pub segment_next_head : ℕ
  pub step_port_invert_mask : Vec3 Bool
  pub dir_port_invert_mask : Vec3 Bool
  pub busy : Bool
  pub interrupt_enable : Bool
  pub null_block : Bool
  pub sys_position : Vec3 ℤ
  pub sys : System
  pub rt : RtFlags

abbrev pub zero_st_block : StBlock
zero_st_block = record {
  steps = vec3 0 0 0;
  step_event_count = 0;
  direction_bits = vec3 false false false;
}

abbrev pub zero_segment : {T : Type 0} → T → Segment T
zero_segment t = record { n_step = 0; interrupt_time = t; st_block_index = 0; amass_level = 0 }

abbrev pub xor : Bool → Bool → Bool
xor true b = not b
xor false b = b

abbrev pub xor_bits : Vec3 Bool → Vec3 Bool → Vec3 Bool
xor_bits a b = vec3 (xor a.x b.x) (xor a.y b.y) (xor a.z b.z)

-- `st.exec_block == NULL`
abbrev pub is_null : Option ℕ → Bool
is_null none = true
is_null (some i) = false

-- `*st.exec_block`. A load reads it first, and records in `null_block` that it is NULL; the events of the
-- segment read the same pointer.
abbrev pub the_block : List StBlock → Option ℕ → StBlock
the_block blocks none = zero_st_block
the_block blocks (some i) = get_or blocks i zero_st_block

-- `steps >> level`
abbrev pub shift_right : ℕ → ℕ → ℕ
shift_right steps level = steps / 2 ^ level

-- One axis of the Bresenham algorithm, on 32-bit counters: whether the axis steps, and its counter.
abbrev pub raised : ℕ → ℕ → ℕ
raised steps counter = (counter + steps) % 4294967296

abbrev pub axis_steps : ℕ → ℕ → ℕ → Bool
axis_steps step_event_count steps counter = ltb step_event_count (raised steps counter)

unfoldable pub axis_counter : ℕ → ℕ → ℕ → ℕ
axis_counter step_event_count steps counter =
    if axis_steps step_event_count steps counter
    then raised steps counter - step_event_count
    else raised steps counter

-- The position moves by one against or along the axis.
abbrev pub one_step : Bool → ℤ → ℤ
one_step backward position = if backward then position -ℤ pos 1 else position +ℤ pos 1

-- `sys.homing_axis_lock`, at the step bits of the axes
abbrev pub unlocked : ℕ → Vec3 Bool
unlocked lock = vec3 (lock / 4 % 2 == 1) (lock / 8 % 2 == 1) (lock / 16 % 2 == 1)

abbrev pub locks_axes : State → Bool
locks_axes homing = true
locks_axes _ = false

abbrev pub and_bits : Vec3 Bool → Vec3 Bool → Vec3 Bool
and_bits a b = vec3 (a.x && b.x) (a.y && b.y) (a.z && b.z)

module _ {T : Type 0} where
  -- The counters of a new block.
  unfoldable pub load_block : Segment T → Stepper T → Stepper T
  load_block segment m =
      let index = segment.st_block_index in
      let half = (get_or m.st_block_buffer index zero_st_block).step_event_count / 2 in
      if m.st.exec_block_index == index then m else record m {
        st = record m.st {
          exec_block_index = index;
          exec_block = some index;
          counter = vec3 half half half;
        };
      }

  -- The segment at the tail of the buffer becomes the one that is executed.
  unfoldable pub load_segment : T → Stepper T → Stepper T
  unfolding load_block
  load_segment t m =
      let segment = get_or m.segment_buffer m.segment_buffer_tail (zero_segment t) in
      let loaded : Stepper T = load_block segment m in
      let block = the_block m.st_block_buffer loaded.st.exec_block in
      let level = segment.amass_level in
      record loaded {
        st = record loaded.st {
          exec_segment = some m.segment_buffer_tail;
          step_count = segment.n_step;
          dir_outbits = xor_bits block.direction_bits m.dir_port_invert_mask;
          steps =
              vec3 (shift_right block.steps.x level) (shift_right block.steps.y level)
                (shift_right block.steps.z level);
        };
        null_block = loaded.null_block || is_null loaded.st.exec_block;
      }

  -- The Bresenham algorithm on the three axes, and the bits that are to be output.
  unfoldable pub step_axes : Stepper T → Stepper T
  unfolding axis_counter
  step_axes m =
      let st = m.st in
      let block = the_block m.st_block_buffer st.exec_block in
      let count = block.step_event_count in
      let bx = axis_steps count st.steps.x st.counter.x in
      let by = axis_steps count st.steps.y st.counter.y in
      let bz = axis_steps count st.steps.z st.counter.z in
      let back = block.direction_bits in
      let bits = vec3 bx by bz in
      let allowed =
        if locks_axes m.sys.state then and_bits bits (unlocked m.sys.homing_axis_lock) else bits in
      record m {
        st = record st {
          counter =
              vec3 (axis_counter count st.steps.x st.counter.x)
                (axis_counter count st.steps.y st.counter.y)
                (axis_counter count st.steps.z st.counter.z);
          step_outbits = xor_bits allowed m.step_port_invert_mask;
        };
        sys_position =
            vec3 (if bx then one_step back.x m.sys_position.x else m.sys_position.x)
              (if by then one_step back.y m.sys_position.y else m.sys_position.y)
              (if bz then one_step back.z m.sys_position.z else m.sys_position.z);
      }

  -- `st.step_count--`, on a `uint16_t`, and the end of a segment.
  unfoldable pub end_event : Stepper T → Stepper T
  end_event m =
      let count = (m.st.step_count + 65535) % 65536 in
      let tail = m.segment_buffer_tail in
      let counted : Stepper T = record m { st = record m.st { step_count = count } } in
      if count == 0
      then record counted {
        st = record counted.st { exec_segment = none };
        segment_buffer_tail = if (tail + 1) == segment_buffer_size then 0 else tail + 1;
      }
      else counted

  -- `st_go_idle`
  abbrev pub stop_interrupt : Stepper T → Stepper T
  stop_interrupt m = record m { interrupt_enable = false; busy = false }

  -- An empty buffer: the interrupt is disabled, the pulse width of the block is asked for, and the main
  -- loop is told.
  unfoldable pub stop_cycle : Stepper T → Stepper T
  unfolding set_exec_state_flag
  stop_cycle m = record (stop_interrupt m) {
    rt = set_exec_state_flag (record exec_none { cycle_stop = true }) m.rt;
    null_block = m.null_block || is_null m.st.exec_block;
  }

  -- An event of the segment that is executed.
  unfoldable pub execute_event : Stepper T → Stepper T
  unfolding step_axes end_event
  execute_event m = record (end_event (step_axes m)) { busy = false }

  -- `ecmc_grbl_main_rt_thread`, without the monitor of the probe, which never triggers in this port.
  unfoldable pub main_rt_thread : T → Stepper T → Stepper T
  unfolding load_segment stop_cycle execute_event
  main_rt_thread t m = if m.busy || not m.interrupt_enable then m else elim m.st.exec_segment [
    | some _ ↦ execute_event m
    | none ↦
        if m.segment_buffer_head == m.segment_buffer_tail
        then stop_cycle m
        else execute_event (load_segment t m)
  ]

  -- The result of a call that executed an event: the time to the next call, where `none` is -1.
  abbrev pub next_call : T → Stepper T → Option T
  next_call t m = elim m.st.exec_segment [
    | none ↦ none
    | some i ↦ some ((get_or m.segment_buffer i (zero_segment t)).interrupt_time)
  ]
