-- ===== src/Protocol/Realtime/Cycle.antt =====
-- grbl_protocol.c: what a pass of `protocol_exec_rt_system` needs to start a cycle.
use ecmc_plugin_grbl.Base.{
  ◌≡◌, ◌⊎◌, refl, sym, ap, ◌∙◌, arith, Bool, true, false, not, ◌||◌, ◌&&◌, if◌then◌else◌, inl, inr,
  Bool-cases,
}
use ecmc_plugin_grbl.Base.Float.{Float}
use ecmc_plugin_grbl.System.{System, exec_none, ExecState, cycle, clear_exec_state_flag}
use ecmc_plugin_grbl.Planner.{plan_get_current_block}
use ecmc_plugin_grbl.Planner.Passes.{st_update-Evolves}
use ecmc_plugin_grbl.Protocol.{is_moving, Core, blocks_hold}
use ecmc_plugin_grbl.Protocol.Realtime.{
  exec_alarm, exec_status_report, exec_hold, exec_sleep, exec_cycle_start, exec_cycle_stop,
  exec_flags, exec_overrides, protocol_exec_rt_system, hold_motion, hold_idle, cancel_motion,
  feed_hold, exec_safety_door, open_door, restart_retract, resume, resume_door, start_cycle,
  complete_hold, complete_motion, flush_jog, wants_hold, is_some,
}
use ecmc_plugin_grbl.Protocol.Realtime.States.{overrides-state, report-state}

-- The flags that the hold part clears.
abbrev hold_flags : ExecState
hold_flags = record exec_none {
  motion_cancel = true;
  feed_hold = true;
  safety_door = true;
  sleep = true;
}

module _ (fl : Float) where
  -- What a cycle needs to start.
  abbrev pub Starts : ExecState → Core fl.F → Type 0
  Starts e m =
      (e.cycle_start ≡ true)
      × ((e.feed_hold || e.motion_cancel || e.safety_door) ≡ false)
      × (is_some (plan_get_current_block fl m.planner) ≡ true)

  resume-cycle :
      (m : Core fl.F)
      → (resume fl (resume_door fl m)).sys.state ≡ cycle
      → (m.sys.state ≡ cycle) ⊎ (is_some (plan_get_current_block fl m.planner) ≡ true)
  unfolding resume resume_door start_cycle
  resume-cycle m h = ground arith

  start-cycle :
      (e : ExecState) (m : Core fl.F)
      → (exec_cycle_start fl e m).sys.state ≡ cycle
      → (m.sys.state ≡ cycle) ⊎ Starts e m
  unfolding exec_cycle_start
  start-cycle e m h = go e.cycle_start (e.feed_hold || e.motion_cancel || e.safety_door) refl refl h
    where
      go :
          (start held : Bool)
          → e.cycle_start ≡ start
          → (e.feed_hold || e.motion_cancel || e.safety_door) ≡ held
          → (let r = if not held then resume fl (resume_door fl m) else m in
              if start
              then record r {
                rt = clear_exec_state_flag (record exec_none { cycle_start = true }) r.rt;
              }
              else m).sys.state
            ≡ cycle
          → (m.sys.state ≡ cycle) ⊎ Starts e m
      go false held es eh h = inl h
      go true true es eh h = inl h
      go true false es eh h = elim (resume-cycle m h) [ inl c ↦ inl c | inr b ↦ inr (es, eh, b) ]

  stop-cycle :
      (e : ExecState) (m : Core fl.F)
      → (exec_cycle_stop fl e m).sys.state ≡ cycle
      → m.sys.state ≡ cycle
  unfolding exec_cycle_stop complete_hold complete_motion flush_jog
  stop-cycle e m h = ground arith

  held-cycle :
      (e : ExecState) (m : Core fl.F)
      → (exec_safety_door fl e
          (feed_hold fl e (cancel_motion fl e (hold_idle fl (hold_motion fl e m))))).sys.state
        ≡ cycle
      → m.sys.state ≡ cycle
  unfolding exec_safety_door open_door restart_retract feed_hold cancel_motion hold_idle hold_motion
  held-cycle e m h = ground arith

  sleep-cycle :
      (e : ExecState) (m : Core fl.F) → (exec_sleep fl e m).sys.state ≡ cycle → m.sys.state ≡ cycle
  unfolding exec_sleep
  sleep-cycle e m h = ground arith

  held-planner :
      (e : ExecState) (m : Core fl.F)
      → (exec_sleep fl e
          (exec_safety_door fl e (feed_hold fl e (cancel_motion fl e (hold_idle fl m))))).planner
        ≡ m.planner
  unfolding exec_sleep exec_safety_door open_door restart_retract feed_hold cancel_motion hold_idle
  held-planner e m = ground arith

  slept-planner : (e : ExecState) (m : Core fl.F) → (exec_sleep fl e m).planner ≡ m.planner
  unfolding exec_sleep
  slept-planner e m = ground arith

  hold_motion-block :
      (e : ExecState) (m : Core fl.F)
      → plan_get_current_block fl (hold_motion fl e m).planner ≡ plan_get_current_block fl m.planner
  unfolding hold_motion plan_get_current_block
  hold_motion-block e m =
      let s = st_update-Evolves fl m.planner in
      elim (Bool-cases
        (is_moving m.sys.state && not (m.sys.suspend.motion_cancel || m.sys.suspend.jog_cancel))) [
          | inl h ↦ rw (h, s.tail, s.head) refl
          | inr h ↦ rw h refl
        ]

  hold-cycle :
      (e : ExecState) (m : Core fl.F) → (exec_hold fl e m).sys.state ≡ cycle → m.sys.state ≡ cycle
  unfolding exec_hold
  hold-cycle e m h = wanted (wants_hold e) h
    where
      held : Core fl.F
      held =
          exec_safety_door fl e
            (feed_hold fl e (cancel_motion fl e (hold_idle fl (hold_motion fl e m))))

      allowed : (b : Bool) → (if not b then held else m).sys.state ≡ cycle → m.sys.state ≡ cycle
      allowed true g = g
      allowed false g = held-cycle e m g

      slept : Core fl.F
      slept = exec_sleep fl e (if not (blocks_hold m.sys.state) then held else m)

      wanted :
          (w : Bool)
          → (if w
              then record slept { rt = clear_exec_state_flag hold_flags slept.rt }
              else m).sys.state
            ≡ cycle
          → m.sys.state ≡ cycle
      wanted false g = g
      wanted true g = allowed (blocks_hold m.sys.state) (sleep-cycle e _ g)

  hold-block :
      (e : ExecState) (m : Core fl.F)
      → plan_get_current_block fl (exec_hold fl e m).planner ≡ plan_get_current_block fl m.planner
  unfolding exec_hold
  hold-block e m = elim (Bool-cases (wants_hold e)) [
    | inl w ↦ rw w (elim (Bool-cases (blocks_hold m.sys.state)) [
      | inl b ↦ rw b (ap (plan_get_current_block fl) (slept-planner e m))
      | inr b ↦ rw b (
          ap (plan_get_current_block fl) (held-planner e (hold_motion fl e m))
          ∙ hold_motion-block e m)
    ])
    | inr w ↦ rw w refl
  ]

  report-planner : (e : ExecState) (m : Core fl.F) → (exec_status_report fl e m).planner ≡ m.planner
  unfolding exec_status_report
  report-planner e m = ground arith

  flags-cycle :
      (e : ExecState) (m : Core fl.F)
      → (exec_flags fl e m).sys.state ≡ cycle
      → (m.sys.state ≡ cycle) ⊎ Starts e m
  unfolding exec_flags
  flags-cycle e m h =
      let a = exec_status_report fl e m in
      let b = exec_hold fl e a in
      let same = ap (λ (y : System). y.state) (report-state fl e m) in
      let block = hold-block e a ∙ ap (plan_get_current_block fl) (report-planner e m) in
      elim (start-cycle e b (stop-cycle e (exec_cycle_start fl e b) h)) [
        | inl c ↦ inl (sym same ∙ hold-cycle e a c)
        | inr s ↦ inr (s.0, s.1, ap is_some (sym block) ∙ s.2)
      ]

  -- After a pass the state is cycle only if it was cycle before, or if a cycle start was requested, no
  -- feed hold, motion cancel or safety door came with it, and the planner has a block to run.
  pub cycle_needs_request :
      (m : Core fl.F)
      → (protocol_exec_rt_system fl m).sys.state ≡ cycle
      → let a = exec_alarm fl m in (a.sys.state ≡ cycle) ⊎ Starts a.rt.exec_state a
  unfolding protocol_exec_rt_system
  cycle_needs_request m h = go a.rt.exec_state.reset h
    where
      a : Core fl.F
      a = exec_alarm fl m

      go :
          (b : Bool)
          → (if b
              then record a { sys = record a.sys { abort = true } }
              else exec_overrides fl (exec_flags fl a.rt.exec_state a)).sys.state
            ≡ cycle
          → (a.sys.state ≡ cycle) ⊎ Starts a.rt.exec_state a
      go true g = inl g
      go false g = flags-cycle a.rt.exec_state a (sym (overrides-state fl _) ∙ g)
