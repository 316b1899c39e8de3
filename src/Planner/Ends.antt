-- ===== src/Planner/Ends.antt =====
-- grbl_planner.c: both loops of `planner_recalculate` end within BLOCK_BUFFER_SIZE iterations, and
-- keep the planned pointer in the queue.
use ecmc_plugin_grbl.Base.{
  ℕ, zero, suc, ◌≤◌, ◌<◌, ◌≡◌, ◌≢◌, ◌⊎◌, refl, sym, ap, subst, ◌∙◌, arith, ◌==◌, ==→eq, ==→ne,
  Bool-cases, inl, inr,
}
use ecmc_plugin_grbl.Base.Float.{Float}
use ecmc_plugin_grbl.Ring.{used}
use ecmc_plugin_grbl.Planner.{
  Planner, block_buffer_size, plan_next_block_index, plan_prev_block_index, block_at,
  st_update_plan_block_parameters, set_entry_speed,
}
use ecmc_plugin_grbl.Planner.Recalculate.{
  reverse_step, reverse_loop, accelerate, forward_step, forward_loop, reverse_pass, forward_pass,
  planner_recalculate, plan_cycle_reinitialize, last_entry_speed,
}
use ecmc_plugin_grbl.Planner.Passes.{
  reverse_step-planned, forward_step-Evolves, reverse_pass-Evolves, recalculate-Evolves, Evolves,
  notify-planned, st_update-Evolves,
}
use ecmc_plugin_grbl.Planner.Queue.{IsValid}

module _ (fl : Float) where
  -- The reverse loop ends at the planned pointer when its fuel is at least the distance to it, and
  -- it leaves the pointer alone.
  pub reverse_loop-ends :
      (fuel : ℕ) (p : Planner fl.F) (next i : ℕ)
      → i < block_buffer_size
      → p.planned < block_buffer_size
      → used block_buffer_size i p.planned ≤ fuel
      → let (q, stop) = reverse_loop fl fuel p next i in
        (stop ≡ p.planned) × (q.planned ≡ p.planned)
  unfolding reverse_loop
  reverse_loop-ends zero p next i hi hp h = (ground arith, refl)
  reverse_loop-ends (suc fuel) p next i hi hp h = elim (Bool-cases (i == p.planned)) [
    | inl e ↦ rw e (==→eq i p.planned e, refl)
    | inr ne ↦
        let same = reverse_step-planned fl p next i in
        let rest =
          reverse_loop-ends fuel (reverse_step fl p next i) i (plan_prev_block_index i)
            (ground arith) (rw same hp) (rw same (closer (==→ne i p.planned ne))) in
        rw ne (rest.0 ∙ same, rest.1 ∙ same)
  ]
    where
      closer : i ≢ p.planned → used block_buffer_size (plan_prev_block_index i) p.planned ≤ fuel
      closer ne = ground arith

  pub forward_step-planned :
      (p : Planner fl.F) (current next : ℕ)
      → ((forward_step fl p current next).planned ≡ p.planned)
        ⊎ ((forward_step fl p current next).planned ≡ next)
  unfolding forward_step accelerate set_entry_speed
  forward_step-planned p current next = ground arith

  -- The index of a block of the queue.
  abbrev pub InQueue : Planner fl.F → ℕ → Type 0
  InQueue p i =
      (i < block_buffer_size)
      × (used block_buffer_size i p.tail < used block_buffer_size p.head p.tail)

  -- The index of a block of the queue, or its head.
  abbrev pub UpToHead : Planner fl.F → ℕ → Type 0
  UpToHead p i =
      (i < block_buffer_size)
      × (used block_buffer_size i p.tail ≤ used block_buffer_size p.head p.tail)

  in_queue : {p q : Planner fl.F} → Evolves fl p q → (i : ℕ) → InQueue q i → InQueue p i
  in_queue {p} {q} s i h = (h.0, rw (sym s.tail, sym s.head) h.1)

  in_queue⁻¹ : {p q : Planner fl.F} → Evolves fl p q → (i : ℕ) → InQueue p i → InQueue q i
  in_queue⁻¹ {p} {q} s i h = (h.0, rw (s.tail, s.head) h.1)

  -- The forward loop ends at the head when its fuel is at least the distance to it.
  pub forward_loop-ends :
      (fuel : ℕ) (p : Planner fl.F) (current i : ℕ)
      → p.head < block_buffer_size
      → p.tail < block_buffer_size
      → UpToHead p i
      → InQueue p p.planned
      → used block_buffer_size p.head i ≤ fuel
      → let (q, stop) = forward_loop fl fuel p current i in (stop ≡ p.head) × InQueue p q.planned
  unfolding forward_loop
  forward_loop-ends zero p current i hh ht hi hp h = (ground (arith, hi), hp)
  forward_loop-ends (suc fuel) p current i hh ht hi hp h = elim (Bool-cases (i == p.head)) [
    | inl e ↦ rw e (==→eq i p.head e, hp)
    | inr ne ↦
        let q = forward_step fl p current i in
        let same = forward_step-Evolves fl p current i in
        let rest =
          forward_loop-ends fuel q i (plan_next_block_index i) (rw same.head hh) (rw same.tail ht)
            (rw (same.head, same.tail) (advanced (==→ne i p.head ne)))
            (rw (same.head, same.tail) (kept (==→ne i p.head ne)))
            (rw same.head (closer (==→ne i p.head ne))) in
        rw ne (rest.0 ∙ same.head, in_queue same _ rest.1)
  ]
    where
      advanced : i ≢ p.head → UpToHead p (plan_next_block_index i)
      advanced ne = (ground (arith, hi), ground (arith, hi))

      closer : i ≢ p.head → used block_buffer_size p.head (plan_next_block_index i) ≤ fuel
      closer ne = ground (arith, hi)

      kept : i ≢ p.head → InQueue p (forward_step fl p current i).planned
      kept ne = elim (forward_step-planned p current i) [
        | inl e ↦ rw e hp
        | inr e ↦ rw e (hi.0, ground (arith, hi))
      ]

  pub forward_pass-planned :
      (p : Planner fl.F)
      → p.head < block_buffer_size
      → p.tail < block_buffer_size
      → InQueue p p.planned
      → InQueue p (forward_pass fl p).planned
  unfolding forward_pass
  forward_pass-planned p hh ht h =
      (forward_loop-ends block_buffer_size p p.planned (plan_next_block_index p.planned) hh ht
        (ground (arith, h), ground (arith, h)) h (ground (arith, h))).1

module _ (fl : Float) (p : Planner fl.F) (v : IsValid p) where
  -- In a valid planner whose planned pointer is at a block of the queue: with a fuel of
  -- BLOCK_BUFFER_SIZE, the reverse loop ends at the planned pointer from any index, and
  -- the forward loop at the head from any index of the queue.
  pub passes_end :
      (next i j : ℕ)
      → i < block_buffer_size
      → UpToHead fl p j
      → InQueue fl p p.planned
      → ((reverse_loop fl block_buffer_size p next i).1 ≡ p.planned)
        × ((forward_loop fl block_buffer_size p next j).1 ≡ p.head)
  passes_end next i j hi hj hp = (
    (reverse_loop-ends fl block_buffer_size p next i hi v.planned
        (ground (arith, hi, v.planned))).0,
    (forward_loop-ends fl block_buffer_size p next j v.head v.tail hj hp
        (ground (arith, hj, v.head))).0,
  )

  IsValid-of : {q : Planner fl.F} → Evolves fl p q → InQueue fl p q.planned → IsValid q
  IsValid-of {q} s h = record {
    size = s.size ∙ v.size;
    tail = rw s.tail v.tail;
    head = rw s.head v.head;
    next_head = rw (s.next_head, s.head) v.next_head;
    planned = h.0;
    between = rw (s.tail, s.head) (omega (arith, h.1));
    inside = λ e. absurd (not_head (e ∙ s.head));
  }
    where
      not_head : q.planned ≢ p.head
      not_head e = omega (arith, h.1, ap (λ i. used block_buffer_size i p.tail) e)

  reverse_pass-planned :
      (last : ℕ) → last < block_buffer_size → (reverse_pass fl p last).planned ≡ p.planned
  unfolding reverse_pass set_entry_speed
  reverse_pass-planned last h =
      let q = set_entry_speed fl p last (last_entry_speed fl (block_at fl p last)) in
      let i = plan_prev_block_index last in
      elim (Bool-cases (i == p.planned)) [
        | inl e ↦ rw e (notify-planned fl q i)
        | inr e ↦
            rw e
              (reverse_loop-ends fl block_buffer_size q last i (ground arith) v.planned
                (ground (arith, v.planned))).1
      ]

  -- A queue with a block stays valid under recalculation.
  pub recalculate-IsValid : p.head ≢ p.tail → IsValid (planner_recalculate fl p)
  unfolding planner_recalculate forward_pass
  recalculate-IsValid ne = IsValid-of (recalculate-Evolves fl p) planned_in
    where
      not_head : p.planned ≢ p.head
      not_head e = ne (v.inside e)

      start : InQueue fl p p.planned
      start = (v.planned, ground (arith, v.planned, v.head, v.tail, v.between))

      last : ℕ
      last = plan_prev_block_index p.head

      planned_in : InQueue fl p (planner_recalculate fl p).planned
      planned_in = elim (Bool-cases (last == p.planned)) [
        | inl e ↦ rw e start
        | inr e ↦
            let q = reverse_pass fl p last in
            let s = reverse_pass-Evolves fl p last in
            let same = reverse_pass-planned last (ground (arith, v.head)) in
            let moved = subst (InQueue fl q) (sym same) (in_queue⁻¹ fl s p.planned start) in
            rw e (
              in_queue fl s _
                (forward_pass-planned fl q (rw s.head v.head) (rw s.tail v.tail) moved))
      ]

module _ (fl : Float) where
  -- The planner that `plan_cycle_reinitialize` recalculates.
  abbrev pub restart : Planner fl.F → Planner fl.F
  restart p = let q = st_update_plan_block_parameters fl p in record q { planned = q.tail }

  pub restart-IsValid : (p : Planner fl.F) → IsValid p → IsValid (restart p)
  restart-IsValid p v =
      let s = st_update-Evolves fl p in
      record {
        size = s.size ∙ v.size;
        tail = rw s.tail v.tail;
        head = rw s.head v.head;
        next_head = rw (s.next_head, s.head) v.next_head;
        planned = rw s.tail v.tail;
        between = ground arith;
        inside = λ e. sym e;
      }

  -- The re-planning from a stop keeps a valid planner with a block in its queue valid.
  pub cycle_reinitialize-IsValid :
      (p : Planner fl.F) → IsValid p → p.head ≢ p.tail → IsValid (plan_cycle_reinitialize fl p)
  unfolding plan_cycle_reinitialize
  cycle_reinitialize-IsValid p v ne =
      let s = st_update-Evolves fl p in
      recalculate-IsValid fl (restart p) (restart-IsValid p v) (rw (s.head, s.tail) ne)
