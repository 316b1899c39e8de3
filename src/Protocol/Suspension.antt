-- ===== src/Protocol/Suspension.antt =====
-- grbl_protocol.c: `protocol_exec_rt_suspend`, without the motions of PARKING_ENABLE, which is off.
-- Delays are calls in the list, without the passes of `protocol_exec_rt_system` that run meanwhile, and
-- the spindle speed to restore is left out. The state sleep waits in a loop of its own for an abort.
use ecmc_plugin_grbl.Base.{Bool, true, false, not, ◌&&◌, ◌||◌, if◌then◌else◌, none, some}
use ecmc_plugin_grbl.Base.Float.{Float}
use ecmc_plugin_grbl.System.{
  exec_none, accessory_none, stop_disabled, system_check_safety_door_ajar, set_exec_state_flag,
  set_exec_accessory_override_flag,
}
use ecmc_plugin_grbl.Planner.{plan_get_current_block, block_at, Condition}
use ecmc_plugin_grbl.Protocol.{
  Core, Call, Spindle, call, set_suspend, set_spindle_state, is_stopping, is_sleep, is_safety_door,
}

-- `restore_condition`, as the arguments of the two calls that restore it.
pub record Restore : Type 0 where
  pub spindle : Spindle
  pub flood : Bool

abbrev pub is_disabled : Spindle → Bool
is_disabled Spindle.disable = true
is_disabled _ = false

-- `block->condition & PL_COND_SPINDLE_MASK`
abbrev pub spindle_of : Condition → Spindle
spindle_of c =
    if c.spindle_cw
    then Spindle.enable_cw
    else if c.spindle_ccw
    then Spindle.enable_ccw
    else Spindle.disable

-- Whether the loop goes on, or waits for an abort and returns.
pub data Next : Type 0 where
  go_on wait_for_abort : Next

module _ (fl : Float) where
  -- The local variables, and the spindle stop that laser mode requests. `coolant` is what
  -- `coolant_get_state` returns, which this port leaves unspecified.
  unfoldable pub suspend_enter : Bool → Bool → Core fl.F → Restore × Core fl.F
  suspend_enter laser_mode coolant m =
      let restore : Restore = elim (plan_get_current_block fl m.planner) [
        | none ↦ record { spindle = m.spindle; flood = m.flood }
        | some i ↦ record {
          spindle = spindle_of (block_at fl m.planner i).condition;
          flood = coolant;
        }
      ] in
      let stopped : Core fl.F = record m {
        rt = set_exec_accessory_override_flag (record accessory_none { spindle_stop = true }) m.rt;
      } in
      (restore, if laser_mode then stopped else m)

  -- Door or sleep: the machine is de-energized, once.
  unfoldable pub retract : Core fl.F → Core fl.F
  retract m =
      let cleared : Core fl.F = record m {
        sys = record m.sys { spindle_stop_ovr = stop_disabled };
      } in
      let off = call (Call.coolant_set_state false) (set_spindle_state Spindle.disable cleared) in
      set_suspend (record off.sys.suspend { restart_retract = false; retract_complete = true }) off

  -- Sleep, after the retract.
  unfoldable pub go_to_sleep : Core fl.F → Core fl.F
  go_to_sleep m =
      let off =
        call (Call.coolant_set_state false)
          (set_spindle_state Spindle.disable (call Call.report_sleep_mode m)) in
      record (call Call.st_go_idle off) { stepper_enabled = false }

  unfoldable pub restore_spindle : Bool → Restore → Core fl.F → Core fl.F
  restore_spindle laser_mode r m =
      let pwm : Core fl.F = record m {
        sys = record m.sys {
          step_control = record m.sys.step_control { update_spindle_pwm = true };
        };
      } in
      if not (is_disabled m.spindle) && not m.sys.suspend.restart_retract
      then (if laser_mode then pwm else call Call.delay_sec_spindle (set_spindle_state r.spindle m))
      else m

  unfoldable pub restore_coolant : Restore → Core fl.F → Core fl.F
  restore_coolant r m =
      if m.flood && not m.sys.suspend.restart_retract
      then call Call.delay_sec_coolant (call (Call.coolant_set_state r.flood) m)
      else m

  unfoldable pub finish_restore : Core fl.F → Core fl.F
  finish_restore m =
      let done = set_suspend (record m.sys.suspend { restore_complete = true }) m in
      if not m.sys.suspend.restart_retract
      then record done {
        rt = set_exec_state_flag (record exec_none { cycle_start = true }) done.rt;
      }
      else m

  -- The closed door, and the restore that a cycle start has asked for.
  unfoldable pub restore_door : Bool → Restore → Core fl.F → Core fl.F
  restore_door laser_mode r m =
      let closed =
        if is_safety_door m.sys.state && not system_check_safety_door_ajar
        then set_suspend (record m.sys.suspend { safety_door_ajar = false }) m
        else m in
      if closed.sys.suspend.initiate_restore
      then finish_restore (restore_coolant r (restore_spindle laser_mode r closed))
      else closed

  -- The spindle stop override of a feed hold.
  unfoldable pub begin_spindle_stop : Core fl.F → Core fl.F
  begin_spindle_stop m =
      let off = set_spindle_state Spindle.disable m in
      if not (is_disabled m.spindle)
      then record off {
        sys = record off.sys { spindle_stop_ovr = record stop_disabled { enabled = true } };
      }
      else record m { sys = record m.sys { spindle_stop_ovr = stop_disabled } }

  unfoldable pub end_spindle_stop : Bool → Restore → Core fl.F → Core fl.F
  end_spindle_stop laser_mode r m =
      let reported = call Call.report_spindle_restore m in
      let pwm : Core fl.F = record reported {
        sys = record m.sys {
          step_control = record m.sys.step_control { update_spindle_pwm = true };
        };
      } in
      let restored =
        if not (is_disabled m.spindle)
        then (if laser_mode then pwm else set_spindle_state r.spindle reported)
        else m in
      let resumed : Core fl.F = record restored {
        rt = set_exec_state_flag (record exec_none { cycle_start = true }) restored.rt;
      } in
      let result = if m.sys.spindle_stop_ovr.restore_cycle then resumed else restored in
      record result { sys = record result.sys { spindle_stop_ovr = stop_disabled } }

  unfoldable pub update_spindle : Restore → Core fl.F → Core fl.F
  update_spindle r m =
      let set = set_spindle_state r.spindle m in
      if m.sys.step_control.update_spindle_pwm
      then record set {
        sys = record set.sys {
          step_control = record set.sys.step_control { update_spindle_pwm = false };
        };
      }
      else m

  unfoldable pub feed_hold_manager : Bool → Restore → Core fl.F → Core fl.F
  feed_hold_manager laser_mode r m =
      let stop = m.sys.spindle_stop_ovr in
      if is_stopping stop
      then (if stop.initiate
          then begin_spindle_stop m
          else if stop.restore || stop.restore_cycle
          then end_spindle_stop laser_mode r m
          else m)
      else update_spindle r m

  -- The body of the loop up to `protocol_exec_rt_system`, when the hold is complete.
  unfoldable pub parking_manager : Bool → Restore → Core fl.F → Next × Core fl.F
  parking_manager laser_mode r m =
      if not m.sys.suspend.retract_complete
      then (Next.go_on, retract m)
      else if is_sleep m.sys.state
      then (Next.wait_for_abort, go_to_sleep m)
      else (Next.go_on, restore_door laser_mode r m)

  unfoldable pub suspend_step : Bool → Restore → Core fl.F → Next × Core fl.F
  suspend_step laser_mode r m =
      if m.sys.suspend.hold_complete
      then (if is_safety_door m.sys.state || is_sleep m.sys.state
          then parking_manager laser_mode r m
          else (Next.go_on, feed_hold_manager laser_mode r m))
      else (Next.go_on, m)
