-- ===== src/MotionControl.antt =====
-- grbl_motion_control.c: the reset that interrupts call, with the part of the stepper module that it
-- stops. `spindle_stop` and `coolant_stop` have empty bodies in this port and change no state.
use ecmc_plugin_grbl.Base.{Bool, true, false, ℕ, ◌||◌, ◌==◌, if◌then◌else◌}
use ecmc_plugin_grbl.System.{
  State, cycle, homing, jog, System, RtFlags, exec_none, set_exec_state_flag, set_exec_alarm,
}

-- `sys`, the real-time flags, and `stepperInterruptEnable`.
pub record Machine : Type 0 where
  pub sys : System
  pub rt : RtFlags
  pub stepper_enabled : Bool

-- EXEC_ALARM_ABORT_CYCLE and EXEC_ALARM_HOMING_FAIL_RESET
abbrev pub abort_cycle : ℕ
abort_cycle = 3

abbrev pub homing_fail_reset : ℕ
homing_fail_reset = 6

-- `st_go_idle`, of which only the interrupt flag is left in this port.
unfoldable pub go_idle : Machine → Machine
go_idle m = record m { stepper_enabled = false }

-- `sys.state & (STATE_CYCLE | STATE_HOMING | STATE_JOG)`
abbrev pub is_motion_state : State → Bool
is_motion_state cycle = true
is_motion_state homing = true
is_motion_state jog = true
is_motion_state _ = false

abbrev pub is_homing : State → Bool
is_homing homing = true
is_homing _ = false

unfoldable pub reset_alarm : Machine → Machine
unfolding set_exec_alarm
reset_alarm m =
    if is_homing m.sys.state
    then (if m.rt.exec_alarm == 0
        then record m { rt = set_exec_alarm homing_fail_reset m.rt }
        else m)
    else record m { rt = set_exec_alarm abort_cycle m.rt }

unfoldable pub mc_reset : Machine → Machine
unfolding set_exec_state_flag go_idle reset_alarm
mc_reset m =
    let flagged : Machine = record m {
      rt = set_exec_state_flag (record exec_none { reset = true }) m.rt;
    } in
    if m.rt.exec_state.reset
    then m
    else if is_motion_state m.sys.state
        || m.sys.step_control.execute_hold
        || m.sys.step_control.execute_sys_motion
    then go_idle (reset_alarm flagged)
    else flagged
