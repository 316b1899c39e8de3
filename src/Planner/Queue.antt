-- ===== src/Planner/Queue.antt =====
-- grbl_planner.c: the indices of the ring.
use ecmc_plugin_grbl.Base.{
  ℕ, ◌+◌, ◌-◌, ◌≤◌, ◌<◌, ◌≡◌, ◌≢◌, ◌↔◌, refl, arith, true, ◌==◌, length, List, [], ◌∷◌, ap, ◌∙◌,
  sym, ==→eq, ==→ne, Bool-cases, inl, inr,
}
use ecmc_plugin_grbl.Base.Float.{Float}
use ecmc_plugin_grbl.Ring.{used, next, window, window_of_ne_zero, used-eq-zero}
use ecmc_plugin_grbl.Planner.{
  Block, Planner, block_buffer_size, plan_reset_buffer, plan_discard_current_block, zero_block,
  plan_next_block_index, plan_check_full_buffer, plan_get_block_buffer_available,
  plan_get_block_buffer_count,
}

-- The indices are in range, `next_head` follows `head`, and `planned` is in the queue, or at the head
-- of an empty one.
pub record IsValid {F : Type 0} (p : Planner F) : Type 0 where
  pub size : length p.block_buffer ≡ block_buffer_size
  pub tail : p.tail < block_buffer_size
  pub head : p.head < block_buffer_size
  pub next_head : p.next_head ≡ next block_buffer_size p.head
  pub planned : p.planned < block_buffer_size
  pub between : used block_buffer_size p.planned p.tail ≤ used block_buffer_size p.head p.tail
  pub inside : p.planned ≡ p.head → p.head ≡ p.tail

abbrev pub count : {F : Type 0} → Planner F → ℕ
count p = used block_buffer_size p.head p.tail

module _ (fl : Float) (p : Planner fl.F) where
  abbrev pub queue : List (Block fl.F)
  queue = window (zero_block fl) block_buffer_size p.block_buffer (count p) p.tail

  module _ (v : IsValid p) where
    -- In a valid planner the two counters add up to the 15 usable places, the count is the number of places from tail
    -- to head, and the full test is that the count is 15.
    pub counters_lem :
        (plan_get_block_buffer_available fl p + plan_get_block_buffer_count fl p ≡ 15)
        × (plan_get_block_buffer_count fl p ≡ count p)
        × (plan_check_full_buffer fl p ≡ true ↔ count p ≡ 15)
    unfolding plan_get_block_buffer_available plan_get_block_buffer_count plan_check_full_buffer
    counters_lem = (
      ground (arith, v.tail, v.head),
      ground (arith, v.tail, v.head),
      (
        (λ e. ground (arith, v.tail, v.head, v.next_head)),
        (λ e. ground (arith, v.tail, v.head, v.next_head)),
      ),
    )

    pub reset_buffer-IsValid : IsValid (plan_reset_buffer fl p)
    unfolding plan_reset_buffer
    reset_buffer-IsValid = record {
      size = v.size;
      tail = omega arith;
      head = omega arith;
      next_head = refl;
      planned = omega arith;
      between = omega arith;
      inside = λ e. refl;
    }

    -- Discarding the current block keeps a valid planner valid.
    pub discard-IsValid : IsValid (plan_discard_current_block fl p)
    unfolding plan_discard_current_block
    discard-IsValid = elim (Bool-cases (p.head == p.tail)) [
      | inl e ↦ rw e v
      | inr ne ↦ elim (Bool-cases (p.tail == p.planned)) [
        | inl same ↦
            rw (ne, same)
              (record {
                size = v.size;
                head = v.head;
                next_head = v.next_head;
                tail = ground (arith, v.tail);
                planned = ground (arith, v.tail);
                between = ground (arith, v.tail, v.head);
                inside = λ e. sym e;
              })
        | inr other ↦
            rw (ne, other)
              (record {
                size = v.size;
                head = v.head;
                next_head = v.next_head;
                planned = v.planned;
                tail = ground (arith, v.tail);
                between = ground (arith, v.tail, v.head, v.planned, v.between);
                inside = λ e. absurd (==→ne p.head p.tail ne (v.inside e));
              })
      ]
    ]

-- A queue without its first element.
abbrev pub rest_of {ℓ} : {A : Type ℓ} → List A → List A
rest_of [] = []
rest_of (x ∷ xs) = xs

module _ (fl : Float) (p : Planner fl.F) (v : IsValid p) where
  -- In a valid planner, discarding takes the first block off the queue, and leaves an empty queue as
  -- it is.
  pub discard-queue : queue fl (plan_discard_current_block fl p) ≡ rest_of (queue fl p)
  unfolding plan_discard_current_block
  discard-queue = elim (Bool-cases (p.head == p.tail)) [
    | inl e ↦ rw (e, empty (==→eq p.head p.tail e)) refl
    | inr ne ↦ elim (Bool-cases (p.tail == p.planned)) [
      | inl same ↦ rw (ne, same) (advanced (==→ne p.head p.tail ne))
      | inr other ↦ rw (ne, other) (advanced (==→ne p.head p.tail ne))
    ]
  ]
    where
      empty : p.head ≡ p.tail → queue fl p ≡ []
      empty e =
          ap (λ n. window (zero_block fl) block_buffer_size p.block_buffer n p.tail) zero_count
        where
          zero_count : count p ≡ 0
          zero_count = ground arith

      advanced :
          p.head ≢ p.tail
          → window
              (zero_block fl)
              block_buffer_size
              p.block_buffer
              (used block_buffer_size p.head (plan_next_block_index p.tail))
              (plan_next_block_index p.tail)
            ≡ rest_of (queue fl p)
      advanced ne =
          ap
            (λ n.
              window (zero_block fl) block_buffer_size p.block_buffer n
                (plan_next_block_index p.tail))
            count_less
          ∙ sym (
              ap rest_of (
                window_of_ne_zero (zero_block fl) block_buffer_size p.block_buffer (count p) p.tail
                  (λ z. ne (used-eq-zero block_buffer_size p.head p.tail v.head v.tail z))))
        where
          count_less : used block_buffer_size p.head (plan_next_block_index p.tail) ≡ count p - 1
          count_less = ground (arith, v.head, v.tail)
