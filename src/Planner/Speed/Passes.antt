-- ===== src/Planner/Speed/Passes.antt =====
-- grbl_planner.c: after a recalculation no entry speed exceeds the block's maximum.
use ecmc_plugin_grbl.Base.{
  ℕ, zero, suc, ◌≤◌, ◌<◌, ◌≡◌, ◌≢◌, refl, sym, subst, ◌∙◌, arith, true, false, ◌==◌, ==→ne,
  Bool-cases, inl, inr, Option, none, some, length, ℕ_discrete,
}
use ecmc_plugin_grbl.Base.Float.{Float}
use ecmc_plugin_grbl.Ring.{used}
use ecmc_plugin_grbl.Planner.{
  Planner, block_buffer_size, plan_next_block_index, plan_prev_block_index, block_at,
  st_update_plan_block_parameters, update_block, set_entry_speed,
}
use ecmc_plugin_grbl.Planner.Recalculate.{
  last_entry_speed, notify_at_tail, reverse_step, reverse_loop, accelerate, forward_step,
  forward_loop, reverse_pass, forward_pass, planner_recalculate, speed_change,
  plan_cycle_reinitialize,
}
use ecmc_plugin_grbl.Planner.Passes.{
  Evolves, reverse_step-Evolves, reverse_step-planned, set_entry_speed-Evolves, st_update-Evolves,
  notify-Evolves,
}
use ecmc_plugin_grbl.Planner.Queue.{IsValid}
use ecmc_plugin_grbl.Planner.Ends.{restart, restart-IsValid}
use ecmc_plugin_grbl.Planner.Speed.{
  Order, Bounded, Untouched, Good, last-Bounded, reverse-Bounded, set-Good, set-Good_self,
  notify-Good, notify-Untouched,
}

module _ (fl : Float) (o : Order fl) where
  reverse_step-Good :
      (p : Planner fl.F) (next i j : ℕ) → Good fl o p j → Good fl o (reverse_step fl p next i) j
  unfolding reverse_step
  reverse_step-Good p next i j g =
      let q = notify_at_tail fl p (plan_prev_block_index i) in
      set-Good fl o q i j _ (λ e. reverse-Bounded fl o (block_at fl q i) (block_at fl q next))
        (notify-Good fl o p (plan_prev_block_index i) j g)

  -- The step at a block makes its entry speed bounded, whatever it was.
  reverse_step-Good_self :
      (p : Planner fl.F) (next i : ℕ)
      → i < length p.block_buffer
      → Untouched fl o p.pl_block i
      → Good fl o (reverse_step fl p next i) i
  unfolding reverse_step
  reverse_step-Good_self p next i hi u =
      let k = plan_prev_block_index i in
      let q = notify_at_tail fl p k in
      let same = notify-Evolves fl p k in
      set-Good_self fl o q i _ (rw same.size hi) (notify-Untouched fl o p k i u)
        (reverse-Bounded fl o (block_at fl q i) (block_at fl q next))

  reverse_step-Untouched :
      (p : Planner fl.F) (next i j : ℕ)
      → Untouched fl o p.pl_block j
      → Untouched fl o (reverse_step fl p next i).pl_block j
  unfolding reverse_step set_entry_speed
  reverse_step-Untouched p next i j u = notify-Untouched fl o p (plan_prev_block_index i) j u

  reverse_loop-Good :
      (fuel : ℕ) (p : Planner fl.F) (next i j : ℕ)
      → Good fl o p j
      → Good fl o (reverse_loop fl fuel p next i).0 j
  unfolding reverse_loop
  reverse_loop-Good zero p next i j g = g
  reverse_loop-Good (suc fuel) p next i j g = elim (Bool-cases (i == p.planned)) [
    | inl e ↦ rw e g
    | inr e ↦ rw e (
        reverse_loop-Good fuel (reverse_step fl p next i) i (plan_prev_block_index i) j
          (reverse_step-Good p next i j g))
  ]

  -- The loop visits every block from `i` back to the one after the planned pointer.
  reverse_loop-visits :
      (fuel : ℕ) (p : Planner fl.F) (next i j : ℕ)
      → i < block_buffer_size
      → j < block_buffer_size
      → p.planned < block_buffer_size
      → length p.block_buffer ≡ block_buffer_size
      → 0 < used block_buffer_size j p.planned
      → used block_buffer_size j p.planned ≤ used block_buffer_size i p.planned
      → used block_buffer_size i p.planned ≤ fuel
      → Untouched fl o p.pl_block j
      → Good fl o (reverse_loop fl fuel p next i).0 j
  unfolding reverse_loop
  reverse_loop-visits zero p next i j hi hj hp hs ha hb hc u = absurd (omega arith)
  reverse_loop-visits (suc fuel) p next i j hi hj hp hs ha hb hc u =
      elim (Bool-cases (i == p.planned)) [
        | inl e ↦ absurd (ground arith)
        | inr ne ↦ rw ne (elim (ℕ_discrete i j) [
          | yes e ↦ reverse_loop-Good fuel q i k j (
              subst (Good fl o q) e (
                reverse_step-Good_self p next i (rw hs hi)
                  (subst (Untouched fl o p.pl_block) (sym e) u)))
          | no d ↦
              reverse_loop-visits fuel q i k j (ground arith) hj (rw same hp) (s.size ∙ hs)
                (rw same ha) (rw same (still d (==→ne i p.planned ne)))
                (rw same (closer (==→ne i p.planned ne))) (reverse_step-Untouched p next i j u)
        ])
      ]
    where
      q : Planner fl.F
      q = reverse_step fl p next i

      k : ℕ
      k = plan_prev_block_index i

      s : Evolves fl p q
      s = reverse_step-Evolves fl p next i

      same : q.planned ≡ p.planned
      same = reverse_step-planned fl p next i

      closer : i ≢ p.planned → used block_buffer_size k p.planned ≤ fuel
      closer ne = ground arith

      still :
          i ≢ j
          → i ≢ p.planned
          → used block_buffer_size j p.planned ≤ used block_buffer_size k p.planned
      still d ne = ground arith

  accelerate-Good :
      (p : Planner fl.F) (speed : fl.F) (i n j : ℕ)
      → Good fl o p j
      → Good fl o (accelerate fl p speed i n) j
  unfolding accelerate set_entry_speed
  accelerate-Good p speed i n j g =
      let reached = (block_at fl p n).entry_speed_sqr in
      elim (Bool-cases (fl.lt (block_at fl p i).entry_speed_sqr reached)) [
        | inl e ↦ elim (Bool-cases (fl.lt speed reached)) [
          | inl f ↦ rw (e, f) (set-Good fl o p n j speed (lower f) g)
          | inr f ↦ rw (e, f) g
        ]
        | inr e ↦ rw e g
      ]
    where
      lower :
          fl.lt speed (block_at fl p n).entry_speed_sqr ≡ true
          → n ≡ j
          → fl.lt (block_at fl p n).max_entry_speed_sqr speed ≡ false
      lower f e = elim (Bool-cases (fl.lt (block_at fl p n).max_entry_speed_sqr speed)) [
        | inl h ↦ absurd (
            clash (
              sym (
                o.trans (block_at fl p n).max_entry_speed_sqr speed
                  (block_at fl p n).entry_speed_sqr h f)
              ∙ subst (λ i. Bounded fl o (block_at fl p i)) (sym e) g.1))
        | inr h ↦ h
      ]
        where
          clash : true ≢ false
          clash e = ground arith

  forward_step-Good :
      (p : Planner fl.F) (i n j : ℕ) → Good fl o p j → Good fl o (forward_step fl p i n) j
  unfolding forward_step
  forward_step-Good p i n j g =
      let speed = fl.add (block_at fl p i).entry_speed_sqr (speed_change fl (block_at fl p i)) in
      let q = accelerate fl p speed i n in
      elim (Bool-cases
        (fl.eq (block_at fl q n).entry_speed_sqr (block_at fl p n).max_entry_speed_sqr)) [
          | inl e ↦ rw e (accelerate-Good p speed i n j g)
          | inr e ↦ rw e (accelerate-Good p speed i n j g)
        ]

  forward_loop-Good :
      (fuel : ℕ) (p : Planner fl.F) (current i j : ℕ)
      → Good fl o p j
      → Good fl o (forward_loop fl fuel p current i).0 j
  unfolding forward_loop
  forward_loop-Good zero p current i j g = g
  forward_loop-Good (suc fuel) p current i j g = elim (Bool-cases (i == p.head)) [
    | inl e ↦ rw e g
    | inr e ↦ rw e (
        forward_loop-Good fuel (forward_step fl p current i) i (plan_next_block_index i) j
          (forward_step-Good p current i j g))
  ]

  reverse_pass-Good :
      (p : Planner fl.F) (last j : ℕ)
      → length p.block_buffer ≡ block_buffer_size
      → last < block_buffer_size
      → j < block_buffer_size
      → p.planned < block_buffer_size
      → 0 < used block_buffer_size j p.planned
      → used block_buffer_size j p.planned ≤ used block_buffer_size last p.planned
      → Untouched fl o p.pl_block j
      → Good fl o (reverse_pass fl p last) j
  unfolding reverse_pass set_entry_speed
  reverse_pass-Good p last j hs hl hj hp ha hb u = elim (ℕ_discrete last j) [
    | yes e ↦ elim (Bool-cases (k == p.planned)) [
      | inl f ↦ rw f (notify-Good fl o q k j (own e))
      | inr f ↦ rw f (reverse_loop-Good block_buffer_size q last k j (own e))
    ]
    | no d ↦ elim (Bool-cases (k == p.planned)) [
      | inl f ↦ absurd (ground arith)
      | inr f ↦ rw f (
          reverse_loop-visits block_buffer_size q last k j (ground arith) hj hp (s.size ∙ hs) ha
            (nearer d) (ground arith) u)
    ]
  ]
    where
      v : fl.F
      v = last_entry_speed fl (block_at fl p last)

      q : Planner fl.F
      q = set_entry_speed fl p last v

      k : ℕ
      k = plan_prev_block_index last

      s : Evolves fl p q
      s = set_entry_speed-Evolves fl p last v

      own : last ≡ j → Good fl o q j
      own e = subst (Good fl o q) e (
          set-Good_self fl o p last v (rw hs hl) (subst (Untouched fl o p.pl_block) (sym e) u)
            (last-Bounded fl o (block_at fl p last)))

      nearer : last ≢ j → used block_buffer_size j p.planned ≤ used block_buffer_size k p.planned
      nearer d = ground arith

  -- For a valid planner and a strict order of floats: after a recalculation, every block between the planned pointer that it starts from and the head
  -- has an entry speed that does not exceed its maximum, whatever the speeds were before, if
  -- `pl_block` does not point to that block.
  pub recalculate-Bounded :
      (p : Planner fl.F)
      → IsValid p
      → (j : ℕ) → j < block_buffer_size
      → 0 < used block_buffer_size j p.planned
      → used block_buffer_size j p.planned < used block_buffer_size p.head p.planned
      → Untouched fl o p.pl_block j
      → Bounded fl o (block_at fl (planner_recalculate fl p) j)
  unfolding planner_recalculate forward_pass
  recalculate-Bounded p v j hj ha hb u =
      let last = plan_prev_block_index p.head in
      let q = reverse_pass fl p last in
      elim (Bool-cases (last == p.planned)) [
        | inl e ↦ absurd (ground (arith, v.head, v.planned))
        | inr e ↦
            rw e
              (forward_loop-Good block_buffer_size q q.planned (plan_next_block_index q.planned) j (
                reverse_pass-Good p last j v.size (ground (arith, v.head)) hj v.planned ha
                  (ground (arith, v.head, v.planned)) u)).1
      ]

  update_block-clears :
      (p : Planner fl.F) (b : Option ℕ) (j : ℕ)
      → p.pl_block ≡ b
      → Untouched fl o (update_block fl p b).pl_block j
  unfolding update_block
  update_block-clears p none j e = rw e tt
  update_block-clears p (some i) j e = tt

  -- For a valid planner and a strict order of floats: after the re-planning from a stop, every block of the queue but the first has an entry speed that
  -- does not exceed its maximum, whatever the speeds were before.
  pub cycle_reinitialize-Bounded :
      (p : Planner fl.F)
      → IsValid p
      → (j : ℕ) → j < block_buffer_size
      → 0 < used block_buffer_size j p.tail
      → used block_buffer_size j p.tail < used block_buffer_size p.head p.tail
      → Bounded fl o (block_at fl (plan_cycle_reinitialize fl p) j)
  unfolding plan_cycle_reinitialize st_update_plan_block_parameters
  cycle_reinitialize-Bounded p v j hj ha hb =
      let s = st_update-Evolves fl p in
      recalculate-Bounded (restart fl p) (restart-IsValid fl p v) j hj (rw s.tail ha)
        (rw (s.tail, s.head) hb) (update_block-clears p p.pl_block j refl)
