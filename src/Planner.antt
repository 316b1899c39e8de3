-- ===== src/Planner.antt =====
-- grbl_planner.c: the ring of planned blocks. The planner's state is a record, with what it shares
-- with the segment generator (grbl_stepper.c): `pl_block`, which points into the ring, and two members
-- of `prep`. A pointer to a block is its index in `block_buffer`.
pub mod Recalculate
pub mod Profile
pub mod Line
pub mod Queue
pub mod Passes
pub mod Ends
pub mod Push
pub mod Reprofile
pub mod Speed
use ecmc_plugin_grbl.Base.{
  ℕ, ◌+◌, ◌-◌, Bool, true, false, List, Option, none, some, ltb, leb, ◌==◌, if◌then◌else◌, get_or,
  set, replicate,
}
use ecmc_plugin_grbl.Base.Int.{ℤ, pos}
use ecmc_plugin_grbl.Base.Float.{Float, Vec3, vec3}

-- BLOCK_BUFFER_SIZE
abbrev pub block_buffer_size : ℕ
block_buffer_size = 16

-- The bits PL_COND_FLAG_RAPID_MOTION (bit 0) to PL_COND_FLAG_COOLANT_MIST (bit 7).
pub record Condition : Type 0 where
  pub rapid_motion : Bool
  pub system_motion : Bool
  pub no_feed_override : Bool
  pub inverse_time : Bool
  pub spindle_cw : Bool
  pub spindle_ccw : Bool
  pub coolant_flood : Bool
  pub coolant_mist : Bool

-- `plan_block_t`; `direction_bits` has a bit for each axis.
pub record Block (F : Type 0) : Type 0 where
  pub steps : Vec3 ℕ
  pub step_event_count : ℕ
  pub direction_bits : Vec3 Bool
  pub condition : Condition
  pub entry_speed_sqr : F
  pub max_entry_speed_sqr : F
  pub acceleration : F
  pub millimeters : F
  pub max_junction_speed_sqr : F
  pub rapid_rate : F
  pub programmed_rate : F
  pub spindle_speed : F

-- `plan_line_data_t`
pub record LineData (F : Type 0) : Type 0 where
  pub feed_rate : F
  pub spindle_speed : F
  pub condition : Condition

-- The static variables of grbl_planner.c with `planner_t pl`; then, of grbl_stepper.c, `pl_block`,
-- PREP_FLAG_RECALCULATE and `prep.current_speed`.
pub record Planner (F : Type 0) : Type 0 where
  pub block_buffer : List (Block F)
  pub tail : ℕ
  pub head : ℕ
  pub next_head : ℕ
  pub planned : ℕ
  pub position : Vec3 ℤ
  pub previous_unit_vec : Vec3 F
  pub previous_nominal_speed : F
  pub pl_block : Option ℕ
  pub recalculate : Bool
  pub current_speed : F

abbrev pub no_condition : Condition
no_condition = record {
  rapid_motion = false;
  system_motion = false;
  no_feed_override = false;
  inverse_time = false;
  spindle_cw = false;
  spindle_ccw = false;
  coolant_flood = false;
  coolant_mist = false;
}

-- `block_index++; if (block_index == BLOCK_BUFFER_SIZE) { block_index = 0; }`
abbrev pub plan_next_block_index : ℕ → ℕ
plan_next_block_index i = if (i + 1) == block_buffer_size then 0 else i + 1

abbrev pub plan_prev_block_index : ℕ → ℕ
plan_prev_block_index i = if i == 0 then block_buffer_size - 1 else i - 1

module _ (fl : Float) where
  abbrev pub zero_f : fl.F
  zero_f = fl.literal 0 1

  -- What `memset(block, 0, sizeof(plan_block_t))` leaves.
  abbrev pub zero_block : Block fl.F
  zero_block = record {
    steps = vec3 0 0 0;
    step_event_count = 0;
    direction_bits = vec3 false false false;
    condition = no_condition;
    entry_speed_sqr = zero_f;
    max_entry_speed_sqr = zero_f;
    acceleration = zero_f;
    millimeters = zero_f;
    max_junction_speed_sqr = zero_f;
    rapid_rate = zero_f;
    programmed_rate = zero_f;
    spindle_speed = zero_f;
  }

  -- `block_buffer[i]`, for i < BLOCK_BUFFER_SIZE
  abbrev pub block_at : Planner fl.F → ℕ → Block fl.F
  block_at p i = get_or p.block_buffer i zero_block

  abbrev pub set_block : Planner fl.F → ℕ → Block fl.F → Planner fl.F
  set_block p i b = record p { block_buffer = set p.block_buffer i b }

  -- `block_buffer[i].entry_speed_sqr = v`
  unfoldable pub set_entry_speed : Planner fl.F → ℕ → fl.F → Planner fl.F
  set_entry_speed p i v = set_block p i (record (block_at p i) { entry_speed_sqr = v })

  -- `st_update_plan_block_parameters`, with `pl_block` as an argument.
  unfoldable pub update_block : Planner fl.F → Option ℕ → Planner fl.F
  update_block p none = p
  update_block p (some i) = record (set_entry_speed p i (fl.mul p.current_speed p.current_speed)) {
    recalculate = true;
    pl_block = none;
  }

  unfoldable pub st_update_plan_block_parameters : Planner fl.F → Planner fl.F
  st_update_plan_block_parameters p = update_block p p.pl_block

  unfoldable pub plan_reset_buffer : Planner fl.F → Planner fl.F
  plan_reset_buffer p = record p { tail = 0; head = 0; next_head = 1; planned = 0 }

  unfoldable pub plan_reset : Planner fl.F → Planner fl.F
  plan_reset p = plan_reset_buffer (record p {
    position = vec3 (pos 0) (pos 0) (pos 0);
    previous_unit_vec = vec3 zero_f zero_f zero_f;
    previous_nominal_speed = zero_f;
  })

  unfoldable pub plan_discard_current_block : Planner fl.F → Planner fl.F
  plan_discard_current_block p =
      let block_index = plan_next_block_index p.tail in
      if p.head == p.tail
      then p
      else if p.tail == p.planned
      then record p { planned = block_index; tail = block_index }
      else record p { tail = block_index }

  -- The index of the first block, for its address.
  unfoldable pub plan_get_current_block : Planner fl.F → Option ℕ
  plan_get_current_block p = if p.head == p.tail then none else some p.tail

  abbrev pub plan_get_exec_block_exit_speed_sqr : Planner fl.F → fl.F
  plan_get_exec_block_exit_speed_sqr p =
      let block_index = plan_next_block_index p.tail in
      if block_index == p.head then zero_f else (block_at p block_index).entry_speed_sqr

  unfoldable pub plan_check_full_buffer : Planner fl.F → Bool
  plan_check_full_buffer p = p.tail == p.next_head

  unfoldable pub plan_get_block_buffer_available : Planner fl.F → ℕ
  plan_get_block_buffer_available p =
      if leb p.tail p.head then block_buffer_size - 1 - (p.head - p.tail) else p.tail - p.head - 1

  unfoldable pub plan_get_block_buffer_count : Planner fl.F → ℕ
  plan_get_block_buffer_count p =
      if leb p.tail p.head then p.head - p.tail else block_buffer_size - (p.tail - p.head)

  abbrev pub plan_sync_position : Vec3 ℤ → Planner fl.F → Planner fl.F
  plan_sync_position sys_position p = record p { position = sys_position }
