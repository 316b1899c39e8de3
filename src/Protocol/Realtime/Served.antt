-- ===== src/Protocol/Realtime/Served.antt =====
-- grbl_protocol.c: what one pass of `protocol_exec_rt_system` does with the requests.
use ecmc_plugin_grbl.Base.{
  ℕ, ◌≡◌, refl, sym, ap, subst, ◌∙◌, arith, Bool, true, false, not, ◌||◌, ◌&&◌, if◌then◌else◌, inl,
  inr, Bool-cases, ◌==◌,
}
use ecmc_plugin_grbl.Base.Float.{Float}
use ecmc_plugin_grbl.System.{
  exec_none, AccessoryOverride, ExecState, RtFlags, clear_exec_state_flag, clear_exec_alarm,
  clear_exec_motion_overrides, clear_exec_accessory_overrides,
}
use ecmc_plugin_grbl.Protocol.{
  Core, Spindle, is_idle, set_spindle_state, needs_segments, blocks_hold, is_holding,
}
use ecmc_plugin_grbl.Protocol.Overrides.{
  any_motion, any_accessory, exec_motion_override, exec_accessory_override, exec_spindle_override,
  exec_spindle_stop, exec_coolant, apply_motion_override, new_override,
}
use ecmc_plugin_grbl.Protocol.Realtime.{
  any_exec, exec_alarm, exec_status_report, exec_hold, exec_sleep, exec_cycle_start,
  exec_cycle_stop, exec_flags, exec_overrides, protocol_exec_rt_system, hold_motion, hold_idle,
  cancel_motion, feed_hold, exec_safety_door, open_door, restart_retract, resume, resume_door,
  start_cycle, complete_hold, complete_motion, flush_jog, await_reset, wants_hold,
}

-- The flags that the parts clear.
abbrev hold_flags : ExecState
hold_flags = record exec_none {
  motion_cancel = true;
  feed_hold = true;
  safety_door = true;
  sleep = true;
}

abbrev start_flag : ExecState
start_flag = record exec_none { cycle_start = true }

abbrev stop_flag : ExecState
stop_flag = record exec_none { cycle_stop = true }

abbrev report_flag : ExecState
report_flag = record exec_none { status_report = true }

abbrev clear_if : Bool → ExecState → RtFlags → RtFlags
clear_if b flags rt = if b then clear_exec_state_flag flags rt else rt

-- The real-time flags after the four parts.
cleared : ExecState → RtFlags → RtFlags
cleared e rt = clear_if e.cycle_stop stop_flag (
    clear_if e.cycle_start start_flag
      (clear_if (wants_hold e) hold_flags (clear_if e.status_report report_flag rt)))

cleared-any_exec :
    (rt : RtFlags)
    → rt.exec_state.reset ≡ false
    → any_exec (cleared rt.exec_state rt).exec_state ≡ false
unfolding cleared clear_exec_state_flag
cleared-any_exec rt h = ground arith

cleared-exec_alarm : (e : ExecState) (rt : RtFlags) → (cleared e rt).exec_alarm ≡ rt.exec_alarm
unfolding cleared clear_exec_state_flag
cleared-exec_alarm e rt = ground arith

module _ (fl : Float) where
  held-rt :
      (e : ExecState) (m : Core fl.F)
      → (exec_safety_door fl e
          (feed_hold fl e (cancel_motion fl e (hold_idle fl (hold_motion fl e m))))).rt
        ≡ m.rt
  unfolding exec_safety_door open_door restart_retract feed_hold cancel_motion hold_idle hold_motion
  held-rt e m = ground arith

  sleep-rt : (e : ExecState) (m : Core fl.F) → (exec_sleep fl e m).rt ≡ m.rt
  unfolding exec_sleep
  sleep-rt e m = ground arith

  hold-rt :
      (e : ExecState) (m : Core fl.F)
      → (exec_hold fl e m).rt
        ≡ (if wants_hold e then clear_exec_state_flag hold_flags m.rt else m.rt)
  unfolding exec_hold
  hold-rt e m = elim (Bool-cases (wants_hold e)) [
    | inl h ↦ rw h (ap (clear_exec_state_flag hold_flags) (sleep-rt e _ ∙ before))
    | inr h ↦ rw h refl
  ]
    where
      before :
          (if not (blocks_hold m.sys.state)
            then exec_safety_door fl e
                (feed_hold fl e (cancel_motion fl e (hold_idle fl (hold_motion fl e m))))
            else m).rt
          ≡ m.rt
      before = elim (Bool-cases (blocks_hold m.sys.state)) [
        | inl h ↦ rw h refl
        | inr h ↦ rw h (held-rt e m)
      ]

  resume-rt : (m : Core fl.F) → (resume fl (resume_door fl m)).rt ≡ m.rt
  unfolding resume resume_door start_cycle
  resume-rt m = ground arith

  cycle_start-rt :
      (e : ExecState) (m : Core fl.F)
      → (exec_cycle_start fl e m).rt
        ≡ (if e.cycle_start then clear_exec_state_flag start_flag m.rt else m.rt)
  unfolding exec_cycle_start
  cycle_start-rt e m = elim (Bool-cases e.cycle_start) [
    | inl h ↦ rw h (ap (clear_exec_state_flag start_flag) before)
    | inr h ↦ rw h refl
  ]
    where
      before :
          (if not (e.feed_hold || e.motion_cancel || e.safety_door)
            then resume fl (resume_door fl m)
            else m).rt
          ≡ m.rt
      before = elim (Bool-cases (e.feed_hold || e.motion_cancel || e.safety_door)) [
        | inl h ↦ rw h refl
        | inr h ↦ rw h (resume-rt m)
      ]

  stopped-rt :
      (m : Core fl.F) → ((complete_hold fl m).rt ≡ m.rt) × ((complete_motion fl m).rt ≡ m.rt)
  unfolding complete_hold complete_motion flush_jog
  stopped-rt m = (refl, ground arith)

  cycle_stop-rt :
      (e : ExecState) (m : Core fl.F)
      → (exec_cycle_stop fl e m).rt
        ≡ (if e.cycle_stop then clear_exec_state_flag stop_flag m.rt else m.rt)
  unfolding exec_cycle_stop
  cycle_stop-rt e m = elim (Bool-cases e.cycle_stop) [
    | inl h ↦ rw h (ap (clear_exec_state_flag stop_flag) before)
    | inr h ↦ rw h refl
  ]
    where
      before :
          (if is_holding m.sys.state && not m.sys.soft_limit && not m.sys.suspend.jog_cancel
            then complete_hold fl m
            else complete_motion fl m).rt
          ≡ m.rt
      before =
          elim (Bool-cases
            (is_holding m.sys.state && not m.sys.soft_limit && not m.sys.suspend.jog_cancel)) [
              | inl h ↦ rw h (stopped-rt m).0
              | inr h ↦ rw h (stopped-rt m).1
            ]

  set_spindle-rt : (s : Spindle) (m : Core fl.F) → (set_spindle_state s m).rt ≡ m.rt
  unfolding set_spindle_state
  set_spindle-rt s m = ground arith

  motion-rt :
      (m : Core fl.F)
      → ((exec_motion_override fl m).rt.exec_state ≡ m.rt.exec_state)
        × ((exec_motion_override fl m).rt.exec_alarm ≡ m.rt.exec_alarm)
        × (any_motion (exec_motion_override fl m).rt.motion ≡ false)
  unfolding exec_motion_override clear_exec_motion_overrides apply_motion_override
  motion-rt m = (ground arith, ground arith, ground arith)

  spindle-rt : (r : AccessoryOverride) (m : Core fl.F) → (exec_spindle_override fl r m).rt ≡ m.rt
  unfolding exec_spindle_override
  spindle-rt r m = elim (Bool-cases (new == m.sys.spindle_speed_ovr)) [
    | inl h ↦ rw h refl
    | inr h ↦ rw h (elim (Bool-cases (is_idle m.sys.state)) [
      | inl g ↦ rw g (set_spindle-rt m.spindle changed)
      | inr g ↦ rw g refl
    ])
  ]
    where
      new : ℕ
      new =
          new_override r.spindle_reset r.spindle_coarse_plus r.spindle_coarse_minus
            r.spindle_fine_plus r.spindle_fine_minus m.sys.spindle_speed_ovr

      changed : Core fl.F
      changed = record m { sys = record m.sys { spindle_speed_ovr = new } }

  spindle_stop-rt : (r : AccessoryOverride) (m : Core fl.F) → (exec_spindle_stop fl r m).rt ≡ m.rt
  unfolding exec_spindle_stop
  spindle_stop-rt r m = ground arith

  coolant-rt : (r : AccessoryOverride) (m : Core fl.F) → (exec_coolant fl r m).rt ≡ m.rt
  unfolding exec_coolant
  coolant-rt r m = ground arith

  accessories-rt :
      (r : AccessoryOverride) (m : Core fl.F)
      → (exec_coolant fl r (exec_spindle_stop fl r (exec_spindle_override fl r m))).rt ≡ m.rt
  accessories-rt r m =
      coolant-rt r (exec_spindle_stop fl r (exec_spindle_override fl r m))
      ∙ spindle_stop-rt r (exec_spindle_override fl r m)
      ∙ spindle-rt r m

  accessory-rt :
      (m : Core fl.F)
      → ((exec_accessory_override fl m).rt.exec_state ≡ m.rt.exec_state)
        × ((exec_accessory_override fl m).rt.exec_alarm ≡ m.rt.exec_alarm)
        × ((exec_accessory_override fl m).rt.motion ≡ m.rt.motion)
        × (any_accessory (exec_accessory_override fl m).rt.accessory ≡ false)
  unfolding exec_accessory_override clear_exec_accessory_overrides
  accessory-rt m =
      let same =
        accessories-rt m.rt.accessory (record m { rt = clear_exec_accessory_overrides m.rt }) in
      elim (Bool-cases (any_accessory m.rt.accessory)) [
        | inl h ↦ rw (h, same) (refl, refl, refl, refl)
        | inr h ↦ rw h (refl, refl, refl, h)
      ]

  overrides-rt :
      (m : Core fl.F)
      → ((exec_overrides fl m).rt.exec_state ≡ m.rt.exec_state)
        × ((exec_overrides fl m).rt.exec_alarm ≡ m.rt.exec_alarm)
        × (any_motion (exec_overrides fl m).rt.motion ≡ false)
        × (any_accessory (exec_overrides fl m).rt.accessory ≡ false)
  unfolding exec_overrides
  overrides-rt m =
      let moved = motion-rt m in
      let q = exec_motion_override fl m in
      let done = accessory-rt q in
      elim (Bool-cases (needs_segments (exec_accessory_override fl q).sys.state)) [
        | inl h ↦ rw h (done.0 ∙ moved.0, done.1 ∙ moved.1, ap any_motion done.2 ∙ moved.2, done.3)
        | inr h ↦ rw h (done.0 ∙ moved.0, done.1 ∙ moved.1, ap any_motion done.2 ∙ moved.2, done.3)
      ]

  report-rt :
      (e : ExecState) (m : Core fl.F)
      → (exec_status_report fl e m).rt
        ≡ (if e.status_report then clear_exec_state_flag report_flag m.rt else m.rt)
  unfolding exec_status_report
  report-rt e m = ground arith

  flags-rt : (m : Core fl.F) → (exec_flags fl m.rt.exec_state m).rt ≡ cleared m.rt.exec_state m.rt
  unfolding exec_flags cleared
  flags-rt m =
      let e = m.rt.exec_state in
      let a = exec_status_report fl e m in
      let b = exec_hold fl e a in
      cycle_stop-rt e (exec_cycle_start fl e b)
      ∙ ap (clear_if e.cycle_stop stop_flag) (
          cycle_start-rt e b
          ∙ ap (clear_if e.cycle_start start_flag)
              (hold-rt e a ∙ ap (clear_if (wants_hold e) hold_flags) (report-rt e m)))

  alarm-rt : (m : Core fl.F) → (exec_alarm fl m).rt.exec_alarm ≡ 0
  unfolding exec_alarm await_reset clear_exec_alarm
  alarm-rt m = ground arith

  -- No real-time flag, no override flag and no alarm is left.
  abbrev pub AllServed : Core fl.F → Type 0
  AllServed m =
      (any_exec m.rt.exec_state ≡ false)
      × (m.rt.exec_alarm ≡ 0)
      × (any_motion m.rt.motion ≡ false)
      × (any_accessory m.rt.accessory ≡ false)

  -- A pass that finds no reset after its alarm part serves every request: afterwards no real-time
  -- flag, no override flag and no alarm is left.
  pub all_served :
      (m : Core fl.F)
      → (exec_alarm fl m).rt.exec_state.reset ≡ false
      → AllServed (protocol_exec_rt_system fl m)
  unfolding protocol_exec_rt_system
  all_served m h =
      let a = exec_alarm fl m in
      let f = exec_flags fl a.rt.exec_state a in
      let o = overrides-rt f in
      let same = flags-rt a in
      subst
        (λ b.
          AllServed
            (if b then record a { sys = record a.sys { abort = true } } else exec_overrides fl f))
        (sym h)
        (
          ap any_exec (o.0 ∙ ap (λ (rt : RtFlags). rt.exec_state) same) ∙ cleared-any_exec a.rt h,
          o.1
              ∙ ap (λ (rt : RtFlags). rt.exec_alarm) same
              ∙ cleared-exec_alarm a.rt.exec_state a.rt
              ∙ alarm-rt m,
          o.2,
          o.3,
        )
