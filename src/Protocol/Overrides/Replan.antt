-- ===== src/Protocol/Overrides/Replan.antt =====
-- grbl_protocol.c: the plan after a change of the motion overrides.
use ecmc_plugin_grbl.Base.{
  ℕ, zero, suc, ap, map, ◌<◌, ◌≡◌, ◌≢◌, refl, ◌∙◌, Bool-cases, inl, inr, ◌==◌, length, length-set,
}
use ecmc_plugin_grbl.Base.Float.{Float}
use ecmc_plugin_grbl.System.{System}
use ecmc_plugin_grbl.Ring.{used, window}
use ecmc_plugin_grbl.Planner.{
  Planner, block_buffer_size, block_at, set_block, plan_next_block_index, zero_block,
  st_update_plan_block_parameters,
}
use ecmc_plugin_grbl.Planner.Profile.{
  update_loop, plan_update_velocity_profile_parameters, plan_compute_profile_nominal_speed,
  plan_compute_profile_parameters, some_large_value,
}
use ecmc_plugin_grbl.Planner.Recalculate.{plan_cycle_reinitialize}
use ecmc_plugin_grbl.Planner.Queue.{IsValid, queue}
use ecmc_plugin_grbl.Planner.Passes.{motion, st_update-Evolves, recalculate-Evolves}
use ecmc_plugin_grbl.Planner.Push.{motions, motions-Evolves}
use ecmc_plugin_grbl.Planner.Reprofile.{reprofiled, update_profile-queue}
use ecmc_plugin_grbl.Planner.Ends.{cycle_reinitialize-IsValid}
use ecmc_plugin_grbl.Planner.Speed.{Order, Bounded}
use ecmc_plugin_grbl.Planner.Speed.Passes.{cycle_reinitialize-Bounded}
use ecmc_plugin_grbl.Protocol.{Core}
use ecmc_plugin_grbl.Protocol.Overrides.{apply_motion_override}

module _ (fl : Float) where
  -- The profile changes blocks in their places only.
  record SamePlaces (p q : Planner fl.F) : Type 0 where
    size : length q.block_buffer ≡ length p.block_buffer
    tail : q.tail ≡ p.tail
    head : q.head ≡ p.head
    next_head : q.next_head ≡ p.next_head
    planned : q.planned ≡ p.planned

  update_loop-SamePlaces :
      (sys : System) (fuel : ℕ) (p : Planner fl.F) (i : ℕ) (previous : fl.F)
      → SamePlaces p (update_loop fl sys fuel p i previous).0
  unfolding update_loop
  update_loop-SamePlaces sys zero p i previous = record {
    size = refl;
    tail = refl;
    head = refl;
    next_head = refl;
    planned = refl;
  }
  update_loop-SamePlaces sys (suc fuel) p i previous =
      let speed = plan_compute_profile_nominal_speed fl sys (block_at fl p i) in
      let block = plan_compute_profile_parameters fl (block_at fl p i) speed previous in
      let rest =
        update_loop-SamePlaces sys fuel (set_block fl p i block) (plan_next_block_index i) speed in
      elim (Bool-cases (i == p.head)) [
        | inl e ↦
            rw e
              (record { size = refl; tail = refl; head = refl; next_head = refl; planned = refl })
        | inr e ↦ rw e (record {
          size = rest.size ∙ length-set p.block_buffer i block;
          tail = rest.tail;
          head = rest.head;
          next_head = rest.next_head;
          planned = rest.planned;
        })
      ]

  -- The planner with the profile for the new overrides.
  abbrev profiled : System → Planner fl.F → Planner fl.F
  profiled sys p =
      let updated = update_loop fl sys block_buffer_size p p.tail (some_large_value fl) in
      record updated.0 { previous_nominal_speed = updated.1 }

  profiled-IsValid : (sys : System) (p : Planner fl.F) → IsValid p → IsValid (profiled sys p)
  profiled-IsValid sys p v =
      let s = update_loop-SamePlaces sys block_buffer_size p p.tail (some_large_value fl) in
      record {
        size = s.size ∙ v.size;
        tail = rw s.tail v.tail;
        head = rw s.head v.head;
        next_head = rw (s.next_head, s.head) v.next_head;
        planned = rw s.planned v.planned;
        between = rw (s.planned, s.tail, s.head) v.between;
        inside = rw (s.planned, s.tail, s.head) v.inside;
      }

  -- A plan from rest changes nothing in the queue but entry speeds.
  reinitialize-motions :
      (p : Planner fl.F) → motions fl (plan_cycle_reinitialize fl p) ≡ motions fl p
  unfolding plan_cycle_reinitialize
  reinitialize-motions p =
      let q = st_update_plan_block_parameters fl p in
      motions-Evolves fl (recalculate-Evolves fl (record q { planned = q.tail }))
      ∙ motions-Evolves fl (st_update-Evolves fl p)

  -- The loop keeps the ends of the queue.
  profiled-motions :
      (sys : System) (p : Planner fl.F)
      → IsValid p
      → motions fl (profiled sys p)
        ≡ map (motion fl) (reprofiled fl sys (some_large_value fl) (queue fl p))
  unfolding plan_update_velocity_profile_parameters
  profiled-motions sys p v =
      let s = update_loop-SamePlaces sys block_buffer_size p p.tail (some_large_value fl) in
      let blocks = (profiled sys p).block_buffer in
      (λ i. map (motion fl) (
        window (zero_block fl) block_buffer_size blocks
          (used block_buffer_size (s.head i) (s.tail i)) (s.tail i)))
      ∙ ap (map (motion fl)) (update_profile-queue fl sys p v)

  -- For a strict order of floats: a change of the motion overrides leaves a valid planner whose queue
  -- is not empty valid. The bounds on the entry speeds of its blocks are those of the new overrides,
  -- each from its junction and the nominal speeds of the block and of the one before, the blocks are
  -- otherwise unchanged but for their entry speeds, and every block but the first has an entry speed
  -- within its bound.
  pub apply_override-Bounded :
      (o : Order fl) (f r : ℕ) (m : Core fl.F)
      → IsValid m.planner
      → m.planner.head ≢ m.planner.tail
      → (j : ℕ) → j < block_buffer_size
      → 0 < used block_buffer_size j m.planner.tail
      → used block_buffer_size j m.planner.tail
        < used block_buffer_size m.planner.head m.planner.tail
      → IsValid (apply_motion_override fl f r m).planner
        × (motions fl (apply_motion_override fl f r m).planner
            ≡ map (motion fl) (
                reprofiled fl
                  (record m.sys { f_override = f; r_override = r; report_ovr_counter = 0 })
                  (some_large_value fl)
                  (queue fl m.planner)))
        × Bounded fl o (block_at fl (apply_motion_override fl f r m).planner j)
  unfolding apply_motion_override plan_update_velocity_profile_parameters
  apply_override-Bounded o f r m v ne j hj ha hb =
      let sys : System = record m.sys { f_override = f; r_override = r; report_ovr_counter = 0 } in
      let p = m.planner in
      let s = update_loop-SamePlaces sys block_buffer_size p p.tail (some_large_value fl) in
      let valid = profiled-IsValid sys p v in
      (
        cycle_reinitialize-IsValid fl (profiled sys p) valid (rw (s.head, s.tail) ne),
        reinitialize-motions (profiled sys p) ∙ profiled-motions sys p v,
        cycle_reinitialize-Bounded fl o (profiled sys p) valid j hj (rw s.tail ha)
            (rw (s.tail, s.head) hb),
      )
