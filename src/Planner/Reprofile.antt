-- ===== src/Planner/Reprofile.antt =====
-- grbl_planner.c: what `plan_update_velocity_profile_parameters` makes of the queue.
use ecmc_plugin_grbl.Base.{
  ℕ, zero, suc, ◌-◌, ◌≤◌, ◌<◌, ◌≡◌, ◌≢◌, refl, sym, ap, ap₂, ◌∙◌, arith, true, false, ◌==◌, ==→ne,
  Bool-cases, inl, inr, List, [], ◌∷◌, length, length-set, get_or-set_self, get_or-set_ne,
}
use ecmc_plugin_grbl.Base.Float.{Float}
use ecmc_plugin_grbl.System.{System}
use ecmc_plugin_grbl.Ring.{
  used, window, window-set_outside, next-lt, used-lt, used-next_tail, offset-before,
}
use ecmc_plugin_grbl.Planner.{
  Block, Planner, block_buffer_size, block_at, set_block, plan_next_block_index, zero_block,
}
use ecmc_plugin_grbl.Planner.Profile.{
  update_loop, plan_compute_profile_nominal_speed, plan_compute_profile_parameters,
  some_large_value, plan_update_velocity_profile_parameters,
}
use ecmc_plugin_grbl.Planner.Queue.{IsValid, count, queue}

module _ (fl : Float) (sys : System) where
  -- Blocks with the bounds on their entry speeds, from their junctions, their nominal speeds under the
  -- overrides and the nominal speed before each.
  unfoldable pub reprofiled : fl.F → List (Block fl.F) → List (Block fl.F)
  reprofiled previous [] = []
  reprofiled previous (b ∷ blocks) =
      let speed = plan_compute_profile_nominal_speed fl sys b in
      plan_compute_profile_parameters fl b speed previous ∷ reprofiled speed blocks

  -- One iteration.
  abbrev rewritten : Planner fl.F → ℕ → fl.F → Planner fl.F
  rewritten p i previous = set_block fl p i (
      plan_compute_profile_parameters fl (block_at fl p i)
        (plan_compute_profile_nominal_speed fl sys (block_at fl p i)) previous)

  update_loop-suc :
      (fuel : ℕ) (p : Planner fl.F) (i : ℕ) (previous : fl.F)
      → (i == p.head) ≡ false
      → update_loop fl sys (suc fuel) p i previous
        ≡ update_loop fl sys fuel
            (rewritten p i previous)
            (plan_next_block_index i)
            (plan_compute_profile_nominal_speed fl sys (block_at fl p i))
  unfolding update_loop
  update_loop-suc fuel p i previous e = rw e refl

  update_loop-end :
      (fuel : ℕ) (p : Planner fl.F) (i : ℕ) (previous : fl.F)
      → (i == p.head) ≡ true
      → update_loop fl sys fuel p i previous ≡ (p, previous)
  unfolding update_loop
  update_loop-end zero p i previous e = refl
  update_loop-end (suc fuel) p i previous e = rw e refl

  -- The places behind `i` up to another place are one fewer behind the next place.
  behind :
      (head i j : ℕ)
      → i < block_buffer_size
      → j < block_buffer_size
      → head < block_buffer_size
      → head ≢ i
      → used block_buffer_size head i ≤ used block_buffer_size j i
      → (i ≢ j)
        × (used block_buffer_size head (plan_next_block_index i)
            ≤ used block_buffer_size j (plan_next_block_index i))
  behind head i j hi hj hh ne u =
      let fewer = used-next_tail block_buffer_size head i hh hi ne in
      let differ : i ≢ j = λ e. ground (arith, e) in
      (
        differ,
        omega (arith, fewer, used-next_tail block_buffer_size j i hj hi (λ e. differ (sym e))),
      )

  -- The loop leaves the blocks from the head on.
  update_loop-untouched :
      (fuel : ℕ) (p : Planner fl.F) (i j : ℕ) (previous : fl.F)
      → i < block_buffer_size
      → j < block_buffer_size
      → p.head < block_buffer_size
      → used block_buffer_size p.head i ≤ used block_buffer_size j i
      → block_at fl (update_loop fl sys fuel p i previous).0 j ≡ block_at fl p j
  unfolding update_loop
  update_loop-untouched zero p i j previous hi hj hh u = refl
  update_loop-untouched (suc fuel) p i j previous hi hj hh u = elim (Bool-cases (i == p.head)) [
    | inl e ↦ ap (λ r. block_at fl r.0 j) (update_loop-end (suc fuel) p i previous e)
    | inr e ↦
        let (ne, later) = behind p.head i j hi hj hh (λ h. ==→ne i p.head e (sym h)) u in
        ap (λ r. block_at fl r.0 j) (update_loop-suc fuel p i previous e)
        ∙ update_loop-untouched fuel (rewritten p i previous) (plan_next_block_index i) j _
            (next-lt block_buffer_size i hi) hj hh later
        ∙ get_or-set_ne p.block_buffer _ (zero_block fl) ne
  ]

  all_behind :
      (head i : ℕ)
      → i < block_buffer_size
      → head < block_buffer_size
      → used block_buffer_size head (plan_next_block_index i)
        ≤ used block_buffer_size i (plan_next_block_index i)
  all_behind head i hi hh = ground (arith, hi, hh)

  update_loop-window :
      (fuel n : ℕ) (p : Planner fl.F) (i : ℕ) (previous : fl.F)
      → i < block_buffer_size
      → p.head < block_buffer_size
      → length p.block_buffer ≡ block_buffer_size
      → used block_buffer_size p.head i ≡ n
      → n ≤ fuel
      → window
          (zero_block fl)
          block_buffer_size
          (update_loop fl sys fuel p i previous).0.block_buffer
          n
          i
        ≡ reprofiled previous (window (zero_block fl) block_buffer_size p.block_buffer n i)
  unfolding reprofiled
  update_loop-window fuel zero p i previous hi hh s u l = refl
  update_loop-window zero (suc n) p i previous hi hh s u l = absurd (omega arith)
  update_loop-window (suc fuel) (suc n) p i previous hi hh s u l =
      let speed = plan_compute_profile_nominal_speed fl sys (block_at fl p i) in
      let block = plan_compute_profile_parameters fl (block_at fl p i) speed previous in
      let next = plan_next_block_index i in
      let q = rewritten p i previous in
      let ne : p.head ≢ i = λ e. ground (arith, e, u) in
      let small : n < block_buffer_size =
        omega (arith, u, used-lt block_buffer_size p.head i hh hi) in
      let less : used block_buffer_size p.head next ≡ n =
        omega (arith, u, used-next_tail block_buffer_size p.head i hh hi ne) in
      let size = length-set p.block_buffer i block ∙ s in
      ap (λ r. window (zero_block fl) block_buffer_size r.0.block_buffer (suc n) i)
        (update_loop-suc fuel p i previous (ground (arith, ne)))
      ∙ ap₂ ◌∷◌
          (update_loop-untouched fuel q next i speed (next-lt block_buffer_size i hi) hi hh
              (all_behind p.head i hi hh)
            ∙ get_or-set_self p.block_buffer i block (zero_block fl) (rw s hi))
          (update_loop-window fuel n q next speed (next-lt block_buffer_size i hi) hh size less
              (omega arith)
            ∙ ap (reprofiled speed) (
                window-set_outside (zero_block fl) block_buffer_size block p.block_buffer n next
                  (block_buffer_size - 1) i (next-lt block_buffer_size i hi) (omega arith)
                  (omega arith) (sym (offset-before block_buffer_size p.head i hh hi))))

  -- The whole queue of a valid planner.
  pub update_profile-queue :
      (p : Planner fl.F)
      → IsValid p
      → window
          (zero_block fl)
          block_buffer_size
          (plan_update_velocity_profile_parameters fl sys p).block_buffer
          (count p)
          p.tail
        ≡ reprofiled (some_large_value fl) (queue fl p)
  unfolding plan_update_velocity_profile_parameters
  update_profile-queue p v =
      update_loop-window block_buffer_size (count p) p p.tail (some_large_value fl) v.tail v.head
        v.size refl (omega (arith, used-lt block_buffer_size p.head p.tail v.head v.tail))
