-- ===== src/Protocol.antt =====
-- grbl_protocol.c: the state that the protocol's handlers work on, and the calls of other modules
-- that they make, in order. The reports, `st_prep_buffer` and `gc_sync_position` are in the list of
-- calls only; of `st_reset`, `st_wake_up` and `st_go_idle` the effect on this state is written out.
pub mod Line
pub mod Overrides
pub mod Realtime
pub mod Suspension
use ecmc_plugin_grbl.Base.{ℕ, Bool, true, false, ◌||◌, List, [], ◌∷◌, ◌++◌, none, if◌then◌else◌}
use ecmc_plugin_grbl.Base.Int.{ℤ}
use ecmc_plugin_grbl.Base.Float.{Float, Vec3}
use ecmc_plugin_grbl.System.{
  State, cycle, hold, jog, homing, safety_door, sleep, alarm, check_mode, System, RtFlags, Suspend,
  SpindleStop,
}
use ecmc_plugin_grbl.Planner.{Planner, zero_f}

-- `gc_state.modal.spindle`: SPINDLE_DISABLE, SPINDLE_ENABLE_CW, SPINDLE_ENABLE_CCW
pub data Spindle : Type 0 where
  disable enable_cw enable_ccw : Spindle

pub data Call : Type 0 where
  report_alarm_message : ℕ → Call
  report_critical_event report_realtime_status report_safety_door_ajar : Call
  report_sleep_mode report_spindle_restore : Call
  spindle_set_state : Spindle → Call
  coolant_set_state : Bool → Call
  delay_sec_spindle delay_sec_coolant : Call
  st_prep_buffer st_wake_up st_reset st_go_idle gc_sync_position : Call

-- `sys`, the real-time flags, the planner, the interrupt flag of the stepper, `sys_position`, the
-- spindle and the flood coolant of `gc_state.modal`, and the calls so far.
pub record Core (F : Type 0) : Type 0 where
  pub sys : System
  pub rt : RtFlags
  pub planner : Planner F
  pub stepper_enabled : Bool
  pub sys_position : Vec3 ℤ
  pub spindle : Spindle
  pub flood : Bool
  pub calls : List Call

module _ {F : Type 0} where
  abbrev pub call : Call → Core F → Core F
  call c m = record m { calls = m.calls ++ c ∷ [] }

  abbrev pub set_state : State → Core F → Core F
  set_state s m = record m { sys = record m.sys { state = s } }

  abbrev pub set_suspend : Suspend → Core F → Core F
  set_suspend s m = record m { sys = record m.sys { suspend = s } }

  -- `spindle_set_state`, as far as it changes this state.
  unfoldable pub set_spindle_state : Spindle → Core F → Core F
  set_spindle_state s m =
      if m.sys.abort
      then m
      else call (Call.spindle_set_state s)
          (record m { sys = record m.sys { report_ovr_counter = 0 } })

-- `sys.suspend != 0`
abbrev pub is_suspended : Suspend → Bool
is_suspended s =
    s.hold_complete || s.restart_retract || s.retract_complete || s.initiate_restore
    || s.restore_complete || s.safety_door_ajar || s.motion_cancel || s.jog_cancel

-- `sys.spindle_stop_ovr != 0`
abbrev pub is_stopping : SpindleStop → Bool
is_stopping s = s.enabled || s.initiate || s.restore || s.restore_cycle

-- `sys.state` tests
abbrev pub is_idle : State → Bool
is_idle State.idle = true
is_idle _ = false

abbrev pub is_hold : State → Bool
is_hold hold = true
is_hold _ = false

abbrev pub is_jog : State → Bool
is_jog jog = true
is_jog _ = false

abbrev pub is_alarm : State → Bool
is_alarm alarm = true
is_alarm _ = false

abbrev pub is_sleep : State → Bool
is_sleep sleep = true
is_sleep _ = false

abbrev pub is_safety_door : State → Bool
is_safety_door safety_door = true
is_safety_door _ = false

-- `sys.state & (STATE_ALARM | STATE_CHECK_MODE)`
abbrev pub blocks_hold : State → Bool
blocks_hold alarm = true
blocks_hold check_mode = true
blocks_hold _ = false

-- `sys.state & (STATE_CYCLE | STATE_JOG)`
abbrev pub is_moving : State → Bool
is_moving cycle = true
is_moving jog = true
is_moving _ = false

-- `sys.state & (STATE_SAFETY_DOOR | STATE_JOG | STATE_SLEEP)`
abbrev pub blocks_feed_hold : State → Bool
blocks_feed_hold safety_door = true
blocks_feed_hold jog = true
blocks_feed_hold sleep = true
blocks_feed_hold _ = false

-- `sys.state & (STATE_HOLD | STATE_SAFETY_DOOR | STATE_SLEEP)`
abbrev pub is_holding : State → Bool
is_holding hold = true
is_holding safety_door = true
is_holding sleep = true
is_holding _ = false

-- `sys.state & (STATE_CYCLE | STATE_HOLD | STATE_SAFETY_DOOR | STATE_HOMING | STATE_SLEEP | STATE_JOG)`
abbrev pub needs_segments : State → Bool
needs_segments State.idle = false
needs_segments alarm = false
needs_segments check_mode = false
needs_segments _ = true

-- `sys.state == STATE_IDLE || sys.state & (STATE_CYCLE | STATE_HOLD | STATE_JOG)`
abbrev pub allows_coolant : State → Bool
allows_coolant State.idle = true
allows_coolant cycle = true
allows_coolant hold = true
allows_coolant jog = true
allows_coolant _ = false
