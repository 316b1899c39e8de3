-- ===== src/Tests.antt =====
-- Data for the examples: natural numbers in the place of floats, a fresh system and planner, and
-- settings.
mod SerialPort
mod Storage
mod Text
mod Planning
mod Handlers
mod Parsing
mod Blocks
mod Stepping
use ecmc_plugin_grbl.Base.{
  ℕ, zero, suc, ◌+◌, ◌-◌, ◌*◌, ◌/◌, ◌%◌, Bool, true, false, List, [], ◌∷◌, ltb, leb, ◌==◌,
  if◌then◌else◌, replicate, none,
}
use ecmc_plugin_grbl.Base.Int.{ℤ, pos, pos_part}
use ecmc_plugin_grbl.Base.Float.{Float, vec3}
use ecmc_plugin_grbl.System.{
  State, System, RtFlags, exec_none, motion_none, accessory_none, suspend_disable, normal_op,
  stop_disabled,
}
use ecmc_plugin_grbl.Settings.{Settings}
use ecmc_plugin_grbl.Planner.{Planner, LineData, no_condition, zero_block}
use ecmc_plugin_grbl.Protocol.{Core, Spindle}

-- The largest of the first numbers whose square is not above `n`.
abbrev pub isqrt : ℕ → ℕ → ℕ
isqrt zero n = 0
isqrt (suc k) n = let less = isqrt k n in if leb (suc k * suc k) n then suc k else less

abbrev pub whole : Float
whole = record {
  F = ℕ;
  literal = λ n d. n / d;
  add = λ a b. a + b;
  sub = λ a b. a - b;
  mul = λ a b. a * b;
  div = λ a b. a / b;
  neg = λ a. 0;
  fabs = λ a. a;
  sqrt = λ a. isqrt 20 a;
  lt = ltb;
  eq = λ a b. a == b;
  same_bytes = λ a b. a == b;
  to_uint8 = λ a. a % 256;
  to_int32 = λ a. pos a;
  lround = λ a. pos a;
  of_int = pos_part;
}

abbrev pub system : System
system = record {
  state = State.idle;
  abort = false;
  suspend = suspend_disable;
  soft_limit = false;
  step_control = normal_op;
  probe_succeeded = false;
  homing_axis_lock = 0;
  f_override = 100;
  r_override = 100;
  spindle_speed_ovr = 100;
  spindle_stop_ovr = stop_disabled;
  report_ovr_counter = 0;
  report_wco_counter = 0;
}

abbrev pub no_requests : RtFlags
no_requests = record {
  exec_state = exec_none;
  exec_alarm = 0;
  motion = motion_none;
  accessory = accessory_none;
}

abbrev pub settings : Settings ℕ
settings = record {
  steps_per_mm = vec3 250 250 250;
  max_rate = vec3 500 500 500;
  acceleration = vec3 10 10 10;
  max_travel = vec3 200 200 200;
  pulse_microseconds = 10;
  step_invert_mask = 0;
  dir_invert_mask = 0;
  stepper_idle_lock_time = 25;
  status_report_mask = 1;
  junction_deviation = 1;
  arc_tolerance = 1;
  rpm_max = 1000;
  rpm_min = 0;
  flags = record {
    report_inches = false;
    laser_mode = false;
    invert_st_enable = false;
    hard_limit_enable = false;
    homing_enable = false;
    soft_limit_enable = false;
    invert_limit_pins = false;
    invert_probe_pin = false;
  };
  homing_dir_mask = 0;
  homing_feed_rate = 25;
  homing_seek_rate = 500;
  homing_debounce_delay = 250;
  homing_pulloff = 1;
}

-- No block in the queue, and three.
abbrev pub empty_planner : Planner ℕ
empty_planner = record {
  block_buffer = replicate 16 (zero_block whole);
  tail = 0;
  head = 0;
  next_head = 1;
  planned = 0;
  position = vec3 (pos 0) (pos 0) (pos 0);
  previous_unit_vec = vec3 0 0 0;
  previous_nominal_speed = 0;
  pl_block = none;
  recalculate = false;
  current_speed = 0;
}

abbrev pub busy_planner : Planner ℕ
busy_planner = record empty_planner { tail = 14; head = 1; next_head = 2; planned = 14 }

abbrev pub line_data : LineData ℕ
line_data = record { feed_rate = 100; spindle_speed = 0; condition = no_condition }

abbrev pub core : Core ℕ
core = record {
  sys = system;
  rt = no_requests;
  planner = busy_planner;
  stepper_enabled = false;
  sys_position = vec3 (pos 0) (pos 0) (pos 0);
  spindle = Spindle.disable;
  flood = false;
  calls = [];
}
