-- ===== src/Protocol/Realtime.antt =====
-- grbl_protocol.c: `protocol_exec_rt_system`, with a function for each of its parts. `e` is the copy
-- of `sys_rt_exec_state` that the parts test. PARKING_ENABLE and DEBUG are off.
pub mod Served
pub mod States
pub mod Aborts
pub mod Cycle
use ecmc_plugin_grbl.Base.{
  ℕ, Bool, true, false, not, ◌&&◌, ◌||◌, ◌==◌, if◌then◌else◌, List, Option, none, some,
}
use ecmc_plugin_grbl.Base.Float.{Float}
use ecmc_plugin_grbl.System.{
  State, alarm, cycle, hold, safety_door, sleep, ExecState, exec_none, System, Suspend, StepControl,
  suspend_disable, normal_op, clear_exec_state_flag, set_exec_state_flag, clear_exec_alarm,
}
use ecmc_plugin_grbl.MotionControl.{Machine, mc_reset}
use ecmc_plugin_grbl.Planner.{
  plan_get_current_block, plan_reset, plan_sync_position, st_update_plan_block_parameters, zero_f,
}
use ecmc_plugin_grbl.Planner.Recalculate.{plan_cycle_reinitialize}
use ecmc_plugin_grbl.Protocol.{
  Core, Call, call, set_state, set_suspend, is_suspended, is_stopping, is_idle, is_hold, is_jog,
  is_alarm, is_sleep, is_safety_door, blocks_hold, is_moving, blocks_feed_hold, is_holding,
  needs_segments,
}
use ecmc_plugin_grbl.Protocol.Overrides.{exec_motion_override, exec_accessory_override}

-- EXEC_ALARM_HARD_LIMIT and EXEC_ALARM_SOFT_LIMIT
abbrev pub is_critical : ℕ → Bool
is_critical code = code == 1 || code == 2

abbrev pub is_some : {A : Type 0} → Option A → Bool
is_some none = false
is_some (some a) = true

-- `sys_rt_exec_state != 0`
abbrev pub any_exec : ExecState → Bool
any_exec e =
    e.status_report || e.cycle_start || e.cycle_stop || e.feed_hold || e.reset || e.safety_door
    || e.motion_cancel || e.sleep

-- `rt_exec & (EXEC_MOTION_CANCEL | EXEC_FEED_HOLD | EXEC_SAFETY_DOOR | EXEC_SLEEP)`
abbrev pub wants_hold : ExecState → Bool
wants_hold e = e.motion_cancel || e.feed_hold || e.safety_door || e.sleep

module _ (fl : Float) where
  -- The loop after a critical alarm ends only when another thread has called `mc_reset`, which alone
  -- sets EXEC_RESET: this is the state then.
  unfoldable pub await_reset : Core fl.F → Core fl.F
  unfolding mc_reset
  await_reset m =
      let waiting : Machine = record {
        sys = m.sys;
        rt = clear_exec_state_flag (record exec_none { reset = true }) m.rt;
        stepper_enabled = m.stepper_enabled;
      } in
      let reset = mc_reset waiting in
      record m {
        sys = reset.sys;
        rt = reset.rt;
        stepper_enabled = reset.stepper_enabled;
        calls = (call Call.report_critical_event m).calls;
      }

  unfoldable pub exec_alarm : Core fl.F → Core fl.F
  exec_alarm m =
      let code = m.rt.exec_alarm in
      let raised : Core fl.F = call (Call.report_alarm_message code) (set_state alarm m) in
      let waited : Core fl.F = if is_critical code then await_reset raised else raised in
      if code == 0 then m else record waited { rt = clear_exec_alarm waited.rt }

  unfoldable pub exec_status_report : ExecState → Core fl.F → Core fl.F
  exec_status_report e m =
      if e.status_report
      then record (call Call.report_realtime_status m) {
        rt = clear_exec_state_flag (record exec_none { status_report = true }) m.rt;
      }
      else m

  -- In a cycle or a jog, the deceleration to a hold.
  unfoldable pub hold_motion : ExecState → Core fl.F → Core fl.F
  hold_motion e m =
      let s = m.sys.suspend in
      let step_control : StepControl = record normal_op { execute_hold = true } in
      if is_moving m.sys.state && not (s.motion_cancel || s.jog_cancel)
      then record m {
        planner = st_update_plan_block_parameters fl m.planner;
        sys = record m.sys {
          step_control = step_control;
          suspend = record s { jog_cancel = s.jog_cancel || (is_jog m.sys.state && not e.sleep) };
        };
      }
      else m

  -- In the idle state the hold is complete at once.
  unfoldable pub hold_idle : Core fl.F → Core fl.F
  hold_idle m =
      if is_idle m.sys.state
      then set_suspend (record suspend_disable { hold_complete = true }) m
      else m

  unfoldable pub cancel_motion : ExecState → Core fl.F → Core fl.F
  cancel_motion e m =
      if e.motion_cancel && not (is_jog m.sys.state)
      then set_suspend (record m.sys.suspend { motion_cancel = true }) m
      else m

  unfoldable pub feed_hold : ExecState → Core fl.F → Core fl.F
  feed_hold e m = if e.feed_hold && not (blocks_feed_hold m.sys.state) then set_state hold m else m

  -- The flags when the door opens again during a restore.
  unfoldable pub restart_retract : Core fl.F → Core fl.F
  restart_retract m =
      let s = m.sys.suspend in
      if is_safety_door m.sys.state && s.initiate_restore
      then set_suspend
          (record s {
            retract_complete = false;
            initiate_restore = false;
            restore_complete = false;
            restart_retract = true;
          })
          m
      else m

  unfoldable pub open_door : Core fl.F → Core fl.F
  open_door m =
      let r = restart_retract m in
      let opened : Core fl.F = if not (is_sleep r.sys.state) then set_state safety_door r else r in
      if not m.sys.suspend.jog_cancel then opened else m

  unfoldable pub exec_safety_door : ExecState → Core fl.F → Core fl.F
  exec_safety_door e m =
      let r = open_door (call Call.report_safety_door_ajar m) in
      if e.safety_door then set_suspend (record r.sys.suspend { safety_door_ajar = true }) r else m

  unfoldable pub exec_sleep : ExecState → Core fl.F → Core fl.F
  exec_sleep e m =
      let s = m.sys.suspend in
      let parked : Core fl.F =
        if is_alarm m.sys.state
        then set_suspend (record s { retract_complete = true; hold_complete = true }) m
        else m in
      if e.sleep then set_state sleep parked else m

  unfoldable pub exec_hold : ExecState → Core fl.F → Core fl.F
  exec_hold e m =
      let held : Core fl.F =
        if not (blocks_hold m.sys.state)
        then exec_safety_door e (feed_hold e (cancel_motion e (hold_idle (hold_motion e m))))
        else m in
      let slept = exec_sleep e held in
      if wants_hold e
      then record slept {
        rt =
            clear_exec_state_flag
              (record exec_none {
                motion_cancel = true;
                feed_hold = true;
                safety_door = true;
                sleep = true;
              })
              slept.rt;
      }
      else m

  unfoldable pub resume_door : Core fl.F → Core fl.F
  resume_door m =
      let s = m.sys.suspend in
      if is_safety_door m.sys.state && not s.safety_door_ajar
      then (if s.restore_complete
          then set_state State.idle m
          else if s.retract_complete
          then set_suspend (record s { initiate_restore = true }) m
          else m)
      else m

  -- `st_prep_buffer` and `st_wake_up` start the cycle when there is a block to run.
  unfoldable pub start_cycle : Core fl.F → Core fl.F
  start_cycle m =
      let normal : Core fl.F = record m {
        sys = record m.sys { step_control = normal_op; suspend = suspend_disable };
      } in
      if is_some (plan_get_current_block fl m.planner) && not m.sys.suspend.motion_cancel
      then record (call Call.st_wake_up (call Call.st_prep_buffer (set_state cycle normal))) {
        stepper_enabled = true;
      }
      else set_state State.idle normal

  unfoldable pub resume : Core fl.F → Core fl.F
  resume m =
      let stop = m.sys.spindle_stop_ovr in
      if is_idle m.sys.state || (is_hold m.sys.state && m.sys.suspend.hold_complete)
      then (if is_hold m.sys.state && is_stopping stop
          then record m {
            sys = record m.sys { spindle_stop_ovr = record stop { restore_cycle = true } };
          }
          else start_cycle m)
      else m

  unfoldable pub exec_cycle_start : ExecState → Core fl.F → Core fl.F
  exec_cycle_start e m =
      let r =
        if not (e.feed_hold || e.motion_cancel || e.safety_door)
        then resume (resume_door m)
        else m in
      if e.cycle_start
      then record r { rt = clear_exec_state_flag (record exec_none { cycle_start = true }) r.rt }
      else m

  -- The hold is complete, and the plan starts from rest.
  unfoldable pub complete_hold : Core fl.F → Core fl.F
  complete_hold m =
      let s = m.sys.suspend in
      let c = m.sys.step_control in
      record m {
        planner = plan_cycle_reinitialize fl m.planner;
        sys = record m.sys {
          suspend = record s { hold_complete = s.hold_complete || c.execute_hold };
          step_control = record c { execute_hold = false; execute_sys_motion = false };
        };
      }

  -- A jog cancel flushes the buffers: `plan_reset`, `st_reset`, `gc_sync_position` and
  -- `plan_sync_position`.
  unfoldable pub flush_jog : Core fl.F → Core fl.F
  flush_jog m =
      let planner = plan_reset fl m.planner in
      if m.sys.suspend.jog_cancel
      then call Call.gc_sync_position (
          call Call.st_reset (record m {
            sys = record m.sys { step_control = normal_op };
            stepper_enabled = false;
            planner = plan_sync_position fl m.sys_position (record planner {
              pl_block = none;
              recalculate = false;
              current_speed = zero_f fl;
            });
          }))
      else m

  unfoldable pub complete_motion : Core fl.F → Core fl.F
  complete_motion m =
      let r = flush_jog m in
      if r.sys.suspend.safety_door_ajar
      then set_state safety_door
          (set_suspend (record r.sys.suspend { jog_cancel = false; hold_complete = true }) r)
      else set_state State.idle (set_suspend suspend_disable r)

  unfoldable pub exec_cycle_stop : ExecState → Core fl.F → Core fl.F
  exec_cycle_stop e m =
      let r =
        if is_holding m.sys.state && not m.sys.soft_limit && not m.sys.suspend.jog_cancel
        then complete_hold m
        else complete_motion m in
      if e.cycle_stop
      then record r { rt = clear_exec_state_flag (record exec_none { cycle_stop = true }) r.rt }
      else m

  -- The parts that the flags of `sys_rt_exec_state` ask for, without EXEC_RESET.
  unfoldable pub exec_flags : ExecState → Core fl.F → Core fl.F
  exec_flags e m = exec_cycle_stop e (exec_cycle_start e (exec_hold e (exec_status_report e m)))

  unfoldable pub exec_overrides : Core fl.F → Core fl.F
  exec_overrides m =
      let r = exec_accessory_override fl (exec_motion_override fl m) in
      if needs_segments r.sys.state then call Call.st_prep_buffer r else r

  unfoldable pub protocol_exec_rt_system : Core fl.F → Core fl.F
  protocol_exec_rt_system m =
      let a = exec_alarm m in
      let e = a.rt.exec_state in
      if e.reset
      then record a { sys = record a.sys { abort = true } }
      else exec_overrides (exec_flags e a)
