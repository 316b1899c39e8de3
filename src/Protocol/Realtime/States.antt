-- ===== src/Protocol/Realtime/States.antt =====
-- grbl_protocol.c: the states that one pass of `protocol_exec_rt_system` can lead to.
use ecmc_plugin_grbl.Base.{
  ℕ, ◌≡◌, refl, ap, ◌∙◌, arith, true, false, if◌then◌else◌, inl, inr, Bool-cases, ◌==◌,
}
use ecmc_plugin_grbl.Base.Float.{Float}
use ecmc_plugin_grbl.System.{
  System, ExecState, AccessoryOverride, alarm, clear_exec_accessory_overrides,
}
use ecmc_plugin_grbl.Protocol.{
  Core, Spindle, set_spindle_state, blocks_hold, needs_segments, is_idle,
}
use ecmc_plugin_grbl.Protocol.Overrides.{
  any_accessory, exec_motion_override, exec_accessory_override, exec_spindle_override,
  exec_spindle_stop, exec_coolant, apply_motion_override, new_override,
}
use ecmc_plugin_grbl.Protocol.Realtime.{
  exec_alarm, exec_status_report, exec_hold, exec_sleep, exec_cycle_start, exec_cycle_stop,
  exec_flags, exec_overrides, protocol_exec_rt_system, resume, resume_door, await_reset, wants_hold,
}

module _ (fl : Float) where
  set_spindle-state :
      (s : Spindle) (m : Core fl.F) → (set_spindle_state s m).sys.state ≡ m.sys.state
  unfolding set_spindle_state
  set_spindle-state s m = ground arith

  spindle-state :
      (r : AccessoryOverride) (m : Core fl.F)
      → (exec_spindle_override fl r m).sys.state ≡ m.sys.state
  unfolding exec_spindle_override
  spindle-state r m = elim (Bool-cases (new == m.sys.spindle_speed_ovr)) [
    | inl h ↦ rw h refl
    | inr h ↦ rw h (elim (Bool-cases (is_idle m.sys.state)) [
      | inl g ↦ rw g (set_spindle-state m.spindle changed)
      | inr g ↦ rw g refl
    ])
  ]
    where
      new : ℕ
      new =
          new_override r.spindle_reset r.spindle_coarse_plus r.spindle_coarse_minus
            r.spindle_fine_plus r.spindle_fine_minus m.sys.spindle_speed_ovr

      changed : Core fl.F
      changed = record m { sys = record m.sys { spindle_speed_ovr = new } }

  stop-state :
      (r : AccessoryOverride) (m : Core fl.F) → (exec_spindle_stop fl r m).sys.state ≡ m.sys.state
  unfolding exec_spindle_stop
  stop-state r m = ground arith

  coolant-state :
      (r : AccessoryOverride) (m : Core fl.F) → (exec_coolant fl r m).sys.state ≡ m.sys.state
  unfolding exec_coolant
  coolant-state r m = ground arith

  motion-state : (m : Core fl.F) → (exec_motion_override fl m).sys.state ≡ m.sys.state
  unfolding exec_motion_override apply_motion_override
  motion-state m = ground arith

  accessory-state : (m : Core fl.F) → (exec_accessory_override fl m).sys.state ≡ m.sys.state
  unfolding exec_accessory_override
  accessory-state m =
      let r = m.rt.accessory in
      let c : Core fl.F = record m { rt = clear_exec_accessory_overrides m.rt } in
      elim (Bool-cases (any_accessory r)) [
        | inl h ↦ rw h (
            coolant-state r (exec_spindle_stop fl r (exec_spindle_override fl r c))
            ∙ stop-state r (exec_spindle_override fl r c)
            ∙ spindle-state r c)
        | inr h ↦ rw h refl
      ]

  pub overrides-state : (m : Core fl.F) → (exec_overrides fl m).sys.state ≡ m.sys.state
  unfolding exec_overrides
  overrides-state m =
      let q = exec_motion_override fl m in
      let same = accessory-state q ∙ motion-state m in
      elim (Bool-cases (needs_segments (exec_accessory_override fl q).sys.state)) [
        | inl h ↦ rw h same
        | inr h ↦ rw h same
      ]

  pub alarm_part-state :
      (m : Core fl.F)
      → (exec_alarm fl m).sys.state ≡ (if m.rt.exec_alarm == 0 then m.sys.state else alarm)
  unfolding exec_alarm await_reset
  alarm_part-state m = ground arith

  alarm_part-planner : (m : Core fl.F) → (exec_alarm fl m).planner ≡ m.planner
  unfolding exec_alarm await_reset
  alarm_part-planner m = ground arith

  pub report-state : (e : ExecState) (m : Core fl.F) → (exec_status_report fl e m).sys ≡ m.sys
  unfolding exec_status_report
  report-state e m = ground arith

  sleep-state :
      (e : ExecState) (m : Core fl.F)
      → e.sleep ≡ false
      → (exec_sleep fl e m).sys.state ≡ m.sys.state
  unfolding exec_sleep
  sleep-state e m h = ground arith

  -- In the alarm state only a sleep request changes the state.
  hold-alarm :
      (e : ExecState) (m : Core fl.F)
      → m.sys.state ≡ alarm
      → e.sleep ≡ false
      → (exec_hold fl e m).sys.state ≡ alarm
  unfolding exec_hold
  hold-alarm e m h s = elim (Bool-cases (wants_hold e)) [
    | inl w ↦ rw w (sleep-state e _ s ∙ rw (ap blocks_hold h) h)
    | inr w ↦ rw w h
  ]

  start-alarm :
      (e : ExecState) (m : Core fl.F)
      → m.sys.state ≡ alarm
      → (exec_cycle_start fl e m).sys.state ≡ alarm
  unfolding exec_cycle_start resume resume_door
  start-alarm e m h = ground arith

  stop-none :
      (e : ExecState) (m : Core fl.F)
      → e.cycle_stop ≡ false
      → (exec_cycle_stop fl e m).sys.state ≡ m.sys.state
  unfolding exec_cycle_stop
  stop-none e m h = rw h refl

  flags-alarm :
      (e : ExecState) (m : Core fl.F)
      → m.sys.state ≡ alarm
      → e.sleep ≡ false
      → e.cycle_stop ≡ false
      → (exec_flags fl e m).sys.state ≡ alarm
  unfolding exec_flags
  flags-alarm e m h s c =
      let a = exec_status_report fl e m in
      let b = exec_hold fl e a in
      stop-none e (exec_cycle_start fl e b) c
      ∙ start-alarm e b (hold-alarm e a (ap (λ (y : System). y.state) (report-state e m) ∙ h) s)

  -- An alarm, or one that is raised now, is left neither by a feed hold nor by a cycle start, a motion
  -- cancel, a safety door or an override: without a reset, a sleep request or a cycle stop the state
  -- after the pass is alarm.
  pub alarm_stays :
      (m : Core fl.F)
      → (exec_alarm fl m).sys.state ≡ alarm
      → (exec_alarm fl m).rt.exec_state.sleep ≡ false
      → (exec_alarm fl m).rt.exec_state.cycle_stop ≡ false
      → (protocol_exec_rt_system fl m).sys.state ≡ alarm
  unfolding protocol_exec_rt_system
  alarm_stays m h s c =
      let a = exec_alarm fl m in
      let e = a.rt.exec_state in
      elim e.reset
        as (λ b.
          (if b
            then record a { sys = record a.sys { abort = true } }
            else exec_overrides fl (exec_flags fl e a)).sys.state
          ≡ alarm) [
            | true ↦ h
            | false ↦ overrides-state (exec_flags fl e a) ∙ flags-alarm e a h s c
          ]
