-- ===== src/Protocol/Realtime/Aborts.antt =====
-- grbl_protocol.c: when a pass of `protocol_exec_rt_system` aborts.
use ecmc_plugin_grbl.Base.{◌≡◌, Bool, true, false, ◌||◌, if◌then◌else◌, ◌==◌}
use ecmc_plugin_grbl.Base.Float.{Float}
use ecmc_plugin_grbl.System.{System, alarm}
use ecmc_plugin_grbl.Protocol.{Core}
use ecmc_plugin_grbl.Protocol.Realtime.{exec_alarm, is_critical}

module _ (fl : Float) where
  -- A reset is asked for, or an alarm is critical, which only a reset ends.
  abbrev pub ends_in_reset : Core fl.F → Bool
  ends_in_reset m = m.rt.exec_state.reset || is_critical m.rt.exec_alarm

  -- With a reset the pass aborts, does nothing behind the alarm part and keeps the plan, the spindle
  -- and the coolant; without one, the abort flag is left as it was.
  abbrev pub AbortsIf : Bool → Core fl.F → Core fl.F → Type 0
  AbortsIf true m q =
      (q.sys.abort ≡ true)
      × (q.planner ≡ m.planner)
      × (q.spindle ≡ m.spindle)
      × (q.flood ≡ m.flood)
      × (q.sys.state ≡ (if m.rt.exec_alarm == 0 then m.sys.state else alarm))
  AbortsIf false m q = q.sys.abort ≡ m.sys.abort
