-- ===== src/System.antt =====
-- grbl_system.h and grbl_system.c: the global system variables, and the handlers that set and
-- clear the real-time flags. A byte of flags is a record with one Boolean for each bit, and the
-- state, which the code only ever assigns one of its constants, is an enumeration.
use ecmc_plugin_grbl.Base.{ℕ, Bool, false, ◌||◌, ◌&&◌, not}

-- `STATE_IDLE` and the eight state bits.
pub data State : Type 0 where
  idle alarm check_mode homing cycle hold jog safety_door sleep : State

-- `sys_rt_exec_state`, EXEC_STATUS_REPORT (bit 0) to EXEC_SLEEP (bit 7).
pub record ExecState : Type 0 where
  pub status_report : Bool
  pub cycle_start : Bool
  pub cycle_stop : Bool
  pub feed_hold : Bool
  pub reset : Bool
  pub safety_door : Bool
  pub motion_cancel : Bool
  pub sleep : Bool

-- `sys_rt_exec_motion_override`, EXEC_FEED_OVR_RESET (bit 0) to EXEC_RAPID_OVR_LOW (bit 7).
pub record MotionOverride : Type 0 where
  pub feed_reset : Bool
  pub feed_coarse_plus : Bool
  pub feed_coarse_minus : Bool
  pub feed_fine_plus : Bool
  pub feed_fine_minus : Bool
  pub rapid_reset : Bool
  pub rapid_medium : Bool
  pub rapid_low : Bool

-- `sys_rt_exec_accessory_override`, EXEC_SPINDLE_OVR_RESET (bit 0) to
-- EXEC_COOLANT_MIST_OVR_TOGGLE (bit 7).
pub record AccessoryOverride : Type 0 where
  pub spindle_reset : Bool
  pub spindle_coarse_plus : Bool
  pub spindle_coarse_minus : Bool
  pub spindle_fine_plus : Bool
  pub spindle_fine_minus : Bool
  pub spindle_stop : Bool
  pub flood_toggle : Bool
  pub mist_toggle : Bool

-- `sys.suspend`, SUSPEND_HOLD_COMPLETE (bit 0) to SUSPEND_JOG_CANCEL (bit 7).
pub record Suspend : Type 0 where
  pub hold_complete : Bool
  pub restart_retract : Bool
  pub retract_complete : Bool
  pub initiate_restore : Bool
  pub restore_complete : Bool
  pub safety_door_ajar : Bool
  pub motion_cancel : Bool
  pub jog_cancel : Bool

-- `sys.step_control`, STEP_CONTROL_END_MOTION (bit 0) to STEP_CONTROL_UPDATE_SPINDLE_PWM (bit 3).
pub record StepControl : Type 0 where
  pub end_motion : Bool
  pub execute_hold : Bool
  pub execute_sys_motion : Bool
  pub update_spindle_pwm : Bool

-- `sys.spindle_stop_ovr`, SPINDLE_STOP_OVR_ENABLED (bit 0) to SPINDLE_STOP_OVR_RESTORE_CYCLE.
pub record SpindleStop : Type 0 where
  pub enabled : Bool
  pub initiate : Bool
  pub restore : Bool
  pub restore_cycle : Bool

abbrev pub exec_none : ExecState
exec_none = record {
  status_report = false;
  cycle_start = false;
  cycle_stop = false;
  feed_hold = false;
  reset = false;
  safety_door = false;
  motion_cancel = false;
  sleep = false;
}

abbrev pub motion_none : MotionOverride
motion_none = record {
  feed_reset = false;
  feed_coarse_plus = false;
  feed_coarse_minus = false;
  feed_fine_plus = false;
  feed_fine_minus = false;
  rapid_reset = false;
  rapid_medium = false;
  rapid_low = false;
}

abbrev pub accessory_none : AccessoryOverride
accessory_none = record {
  spindle_reset = false;
  spindle_coarse_plus = false;
  spindle_coarse_minus = false;
  spindle_fine_plus = false;
  spindle_fine_minus = false;
  spindle_stop = false;
  flood_toggle = false;
  mist_toggle = false;
}

-- SUSPEND_DISABLE
abbrev pub suspend_disable : Suspend
suspend_disable = record {
  hold_complete = false;
  restart_retract = false;
  retract_complete = false;
  initiate_restore = false;
  restore_complete = false;
  safety_door_ajar = false;
  motion_cancel = false;
  jog_cancel = false;
}

-- STEP_CONTROL_NORMAL_OP
abbrev pub normal_op : StepControl
normal_op = record {
  end_motion = false;
  execute_hold = false;
  execute_sys_motion = false;
  update_spindle_pwm = false;
}

-- SPINDLE_STOP_OVR_DISABLED
abbrev pub stop_disabled : SpindleStop
stop_disabled = record { enabled = false; initiate = false; restore = false; restore_cycle = false }

-- The real-time flags, which interrupts and the main program share.
pub record RtFlags : Type 0 where
  pub exec_state : ExecState
  pub exec_alarm : ℕ
  pub motion : MotionOverride
  pub accessory : AccessoryOverride

-- `system_t`, with the members that every build has; `spindle_speed` belongs to the spindle.
pub record System : Type 0 where
  pub state : State
  pub abort : Bool
  pub suspend : Suspend
  pub soft_limit : Bool
  pub step_control : StepControl
  pub probe_succeeded : Bool
  pub homing_axis_lock : ℕ
  pub f_override : ℕ
  pub r_override : ℕ
  pub spindle_speed_ovr : ℕ
  pub spindle_stop_ovr : SpindleStop
  pub report_ovr_counter : ℕ
  pub report_wco_counter : ℕ

-- The port has no pin for the door.
abbrev pub system_check_safety_door_ajar : Bool
system_check_safety_door_ajar = false

-- `sys_rt_exec_state |= mask`
unfoldable pub set_exec_state_flag : ExecState → RtFlags → RtFlags
set_exec_state_flag mask rt = record rt {
  exec_state = record {
    status_report = rt.exec_state.status_report || mask.status_report;
    cycle_start = rt.exec_state.cycle_start || mask.cycle_start;
    cycle_stop = rt.exec_state.cycle_stop || mask.cycle_stop;
    feed_hold = rt.exec_state.feed_hold || mask.feed_hold;
    reset = rt.exec_state.reset || mask.reset;
    safety_door = rt.exec_state.safety_door || mask.safety_door;
    motion_cancel = rt.exec_state.motion_cancel || mask.motion_cancel;
    sleep = rt.exec_state.sleep || mask.sleep;
  };
}

-- `sys_rt_exec_state &= ~(mask)`
unfoldable pub clear_exec_state_flag : ExecState → RtFlags → RtFlags
clear_exec_state_flag mask rt = record rt {
  exec_state = record {
    status_report = rt.exec_state.status_report && not mask.status_report;
    cycle_start = rt.exec_state.cycle_start && not mask.cycle_start;
    cycle_stop = rt.exec_state.cycle_stop && not mask.cycle_stop;
    feed_hold = rt.exec_state.feed_hold && not mask.feed_hold;
    reset = rt.exec_state.reset && not mask.reset;
    safety_door = rt.exec_state.safety_door && not mask.safety_door;
    motion_cancel = rt.exec_state.motion_cancel && not mask.motion_cancel;
    sleep = rt.exec_state.sleep && not mask.sleep;
  };
}

unfoldable pub set_exec_alarm : ℕ → RtFlags → RtFlags
set_exec_alarm code rt = record rt { exec_alarm = code }

unfoldable pub clear_exec_alarm : RtFlags → RtFlags
clear_exec_alarm rt = record rt { exec_alarm = 0 }

-- `sys_rt_exec_motion_override |= mask`
unfoldable pub set_exec_motion_override_flag : MotionOverride → RtFlags → RtFlags
set_exec_motion_override_flag mask rt = record rt {
  motion = record {
    feed_reset = rt.motion.feed_reset || mask.feed_reset;
    feed_coarse_plus = rt.motion.feed_coarse_plus || mask.feed_coarse_plus;
    feed_coarse_minus = rt.motion.feed_coarse_minus || mask.feed_coarse_minus;
    feed_fine_plus = rt.motion.feed_fine_plus || mask.feed_fine_plus;
    feed_fine_minus = rt.motion.feed_fine_minus || mask.feed_fine_minus;
    rapid_reset = rt.motion.rapid_reset || mask.rapid_reset;
    rapid_medium = rt.motion.rapid_medium || mask.rapid_medium;
    rapid_low = rt.motion.rapid_low || mask.rapid_low;
  };
}

-- `sys_rt_exec_accessory_override |= mask`
unfoldable pub set_exec_accessory_override_flag : AccessoryOverride → RtFlags → RtFlags
set_exec_accessory_override_flag mask rt = record rt {
  accessory = record {
    spindle_reset = rt.accessory.spindle_reset || mask.spindle_reset;
    spindle_coarse_plus = rt.accessory.spindle_coarse_plus || mask.spindle_coarse_plus;
    spindle_coarse_minus = rt.accessory.spindle_coarse_minus || mask.spindle_coarse_minus;
    spindle_fine_plus = rt.accessory.spindle_fine_plus || mask.spindle_fine_plus;
    spindle_fine_minus = rt.accessory.spindle_fine_minus || mask.spindle_fine_minus;
    spindle_stop = rt.accessory.spindle_stop || mask.spindle_stop;
    flood_toggle = rt.accessory.flood_toggle || mask.flood_toggle;
    mist_toggle = rt.accessory.mist_toggle || mask.mist_toggle;
  };
}

unfoldable pub clear_exec_motion_overrides : RtFlags → RtFlags
clear_exec_motion_overrides rt = record rt { motion = motion_none }

unfoldable pub clear_exec_accessory_overrides : RtFlags → RtFlags
clear_exec_accessory_overrides rt = record rt { accessory = accessory_none }
