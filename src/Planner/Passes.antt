-- ===== src/Planner/Passes.antt =====
-- grbl_planner.c: both passes of `planner_recalculate` end, and change nothing but entry speeds and
-- the planned pointer.
use ecmc_plugin_grbl.Base.{
  ℕ, zero, suc, ◌≡◌, refl, ◌∙◌, true, ◌==◌, Bool-cases, inl, inr, Option, none, some, Bool, List,
  [], ◌∷◌, length, get_or, set, length-set,
}
use ecmc_plugin_grbl.Base.Float.{Float}
use ecmc_plugin_grbl.Planner.{
  Block, Planner, block_buffer_size, plan_next_block_index, plan_prev_block_index, set_entry_speed,
  st_update_plan_block_parameters, update_block, block_at, zero_f, zero_block,
}
use ecmc_plugin_grbl.Planner.Recalculate.{
  notify_at_tail, speed_change, reverse_step, reverse_loop, accelerate, forward_step, forward_loop,
  reverse_pass, last_entry_speed, planner_recalculate, forward_pass,
}

-- A write that `f` does not see.
get_or-set_same {ℓ κ} :
    {A : Type ℓ} {B : Type κ} (f : A → B) (xs : List A) (i j : ℕ) (v d : A)
    → f v ≡ f (get_or xs i d)
    → f (get_or (set xs i v) j d) ≡ f (get_or xs j d)
get_or-set_same f [] i j v d h = refl
get_or-set_same f (x ∷ xs) zero zero v d h = h
get_or-set_same f (x ∷ xs) zero (suc j) v d h = refl
get_or-set_same f (x ∷ xs) (suc i) zero v d h = refl
get_or-set_same f (x ∷ xs) (suc i) (suc j) v d h = get_or-set_same f xs i j v d h

module _ (fl : Float) where
  -- A block without its entry speed, which is what the passes may change.
  abbrev pub motion : Block fl.F → Block fl.F
  motion b = record b { entry_speed_sqr = zero_f fl }

  -- Two planners with the same indices, except for the planned pointer, and the same motions.
  pub record Evolves (p q : Planner fl.F) : Type 0 where
    pub tail : q.tail ≡ p.tail
    pub head : q.head ≡ p.head
    pub next_head : q.next_head ≡ p.next_head
    pub position : q.position ≡ p.position
    pub size : length q.block_buffer ≡ length p.block_buffer
    pub same_motion : (i : ℕ) → motion (block_at fl q i) ≡ motion (block_at fl p i)

  pub Evolves-refl : (p : Planner fl.F) → Evolves p p
  Evolves-refl p = record {
    tail = refl;
    head = refl;
    next_head = refl;
    position = refl;
    size = refl;
    same_motion = λ i. refl;
  }

  pub Evolves-trans : {p q r : Planner fl.F} → Evolves p q → Evolves q r → Evolves p r
  Evolves-trans s t = record {
    tail = t.tail ∙ s.tail;
    head = t.head ∙ s.head;
    next_head = t.next_head ∙ s.next_head;
    position = t.position ∙ s.position;
    size = t.size ∙ s.size;
    same_motion = λ i. t.same_motion i ∙ s.same_motion i;
  }

  pub set_entry_speed-Evolves :
      (p : Planner fl.F) (i : ℕ) (v : fl.F) → Evolves p (set_entry_speed fl p i v)
  unfolding set_entry_speed
  set_entry_speed-Evolves p i v = record {
    tail = refl;
    head = refl;
    next_head = refl;
    position = refl;
    size = length-set p.block_buffer i (record (block_at fl p i) { entry_speed_sqr = v });
    same_motion = λ j.
        get_or-set_same motion p.block_buffer i j (record (block_at fl p i) { entry_speed_sqr = v })
          (zero_block fl) refl;
  }

  -- The members that no motion depends on.
  bookkeeping :
      (p : Planner fl.F) (o : Option ℕ) (flag : Bool) (planned : ℕ)
      → Evolves p (record p { pl_block = o; recalculate = flag; planned = planned })
  bookkeeping p o flag planned = record {
    tail = refl;
    head = refl;
    next_head = refl;
    position = refl;
    size = refl;
    same_motion = λ i. refl;
  }

  update_block-Evolves : (p : Planner fl.F) (o : Option ℕ) → Evolves p (update_block fl p o)
  unfolding update_block
  update_block-Evolves p none = Evolves-refl p
  update_block-Evolves p (some i) =
      let v = fl.mul p.current_speed p.current_speed in
      Evolves-trans (set_entry_speed-Evolves p i v)
        (bookkeeping (set_entry_speed fl p i v) none true _)

  update_block-planned :
      (p : Planner fl.F) (o : Option ℕ) → (update_block fl p o).planned ≡ p.planned
  unfolding update_block set_entry_speed
  update_block-planned p none = refl
  update_block-planned p (some i) = refl

  pub st_update-Evolves : (p : Planner fl.F) → Evolves p (st_update_plan_block_parameters fl p)
  unfolding st_update_plan_block_parameters
  st_update-Evolves p = update_block-Evolves p p.pl_block

  pub st_update-planned :
      (p : Planner fl.F) → (st_update_plan_block_parameters fl p).planned ≡ p.planned
  unfolding st_update_plan_block_parameters
  st_update-planned p = update_block-planned p p.pl_block

  pub notify-Evolves : (p : Planner fl.F) (i : ℕ) → Evolves p (notify_at_tail fl p i)
  unfolding notify_at_tail
  notify-Evolves p i = elim (Bool-cases (i == p.tail)) [
    | inl e ↦ rw e (st_update-Evolves p)
    | inr ne ↦ rw ne (Evolves-refl p)
  ]

  pub notify-planned : (p : Planner fl.F) (i : ℕ) → (notify_at_tail fl p i).planned ≡ p.planned
  unfolding notify_at_tail
  notify-planned p i = elim (Bool-cases (i == p.tail)) [
    | inl e ↦ rw e (st_update-planned p)
    | inr ne ↦ rw ne refl
  ]

  pub reverse_step-Evolves :
      (p : Planner fl.F) (next current : ℕ) → Evolves p (reverse_step fl p next current)
  unfolding reverse_step
  reverse_step-Evolves p next current =
      Evolves-trans (notify-Evolves p (plan_prev_block_index current))
        (set_entry_speed-Evolves (notify_at_tail fl p (plan_prev_block_index current)) current _)

  pub reverse_step-planned :
      (p : Planner fl.F) (next current : ℕ) → (reverse_step fl p next current).planned ≡ p.planned
  unfolding reverse_step set_entry_speed
  reverse_step-planned p next current = notify-planned p (plan_prev_block_index current)

  pub accelerate-Evolves :
      (p : Planner fl.F) (speed : fl.F) (current next : ℕ)
      → Evolves p (accelerate fl p speed current next)
  unfolding accelerate
  accelerate-Evolves p speed current next =
      elim (Bool-cases
        (fl.lt (block_at fl p current).entry_speed_sqr (block_at fl p next).entry_speed_sqr)) [
          | inl e ↦ elim (Bool-cases (fl.lt speed (block_at fl p next).entry_speed_sqr)) [
            | inl f ↦
                rw (e, f)
                  (Evolves-trans (set_entry_speed-Evolves p next speed)
                    (bookkeeping (set_entry_speed fl p next speed) _ _ next))
            | inr f ↦ rw (e, f) (Evolves-refl p)
          ]
          | inr e ↦ rw e (Evolves-refl p)
        ]

  pub forward_step-Evolves :
      (p : Planner fl.F) (current next : ℕ) → Evolves p (forward_step fl p current next)
  unfolding forward_step
  forward_step-Evolves p current next =
      let speed =
        fl.add (block_at fl p current).entry_speed_sqr (speed_change fl (block_at fl p current)) in
      let q = accelerate fl p speed current next in
      elim (Bool-cases
        (fl.eq (block_at fl q next).entry_speed_sqr (block_at fl p next).max_entry_speed_sqr)) [
          | inl e ↦
              rw e
                (Evolves-trans (accelerate-Evolves p speed current next) (bookkeeping q _ _ next))
          | inr e ↦ rw e (accelerate-Evolves p speed current next)
        ]

  pub reverse_loop-Evolves :
      (fuel : ℕ) (p : Planner fl.F) (next i : ℕ) → Evolves p (reverse_loop fl fuel p next i).0
  unfolding reverse_loop
  reverse_loop-Evolves zero p next i = Evolves-refl p
  reverse_loop-Evolves (suc fuel) p next i = elim (Bool-cases (i == p.planned)) [
    | inl e ↦ rw e (Evolves-refl p)
    | inr e ↦ rw e (
        Evolves-trans (reverse_step-Evolves p next i)
          (reverse_loop-Evolves fuel (reverse_step fl p next i) i (plan_prev_block_index i)))
  ]

  pub forward_loop-Evolves :
      (fuel : ℕ) (p : Planner fl.F) (current i : ℕ) → Evolves p (forward_loop fl fuel p current i).0
  unfolding forward_loop
  forward_loop-Evolves zero p current i = Evolves-refl p
  forward_loop-Evolves (suc fuel) p current i = elim (Bool-cases (i == p.head)) [
    | inl e ↦ rw e (Evolves-refl p)
    | inr e ↦ rw e (
        Evolves-trans (forward_step-Evolves p current i)
          (forward_loop-Evolves fuel (forward_step fl p current i) i (plan_next_block_index i)))
  ]

  pub reverse_pass-Evolves : (p : Planner fl.F) (last : ℕ) → Evolves p (reverse_pass fl p last)
  unfolding reverse_pass
  reverse_pass-Evolves p last =
      let q = set_entry_speed fl p last (last_entry_speed fl (block_at fl p last)) in
      elim (Bool-cases (plan_prev_block_index last == q.planned)) [
        | inl e ↦ rw e (Evolves-trans (set_entry_speed-Evolves p last _) (notify-Evolves q _))
        | inr e ↦ rw e (
            Evolves-trans (set_entry_speed-Evolves p last _)
              (reverse_loop-Evolves block_buffer_size q last (plan_prev_block_index last)))
      ]

  -- Recalculation keeps the queue's indices, the position and, in every block, all but the entry speed.
  pub recalculate-Evolves : (p : Planner fl.F) → Evolves p (planner_recalculate fl p)
  unfolding planner_recalculate forward_pass
  recalculate-Evolves p =
      let last = plan_prev_block_index p.head in
      let q = reverse_pass fl p last in
      elim (Bool-cases (last == p.planned)) [
        | inl e ↦ rw e (Evolves-refl p)
        | inr e ↦ rw e (
            Evolves-trans (reverse_pass-Evolves p last) (
              forward_loop-Evolves block_buffer_size q q.planned (plan_next_block_index q.planned)))
      ]
