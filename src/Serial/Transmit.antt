-- ===== src/Serial/Transmit.antt =====
-- grbl_serial.c: the transmit buffer as a queue of at most 104 bytes.
use ecmc_plugin_grbl.Base.{
  ℕ, suc, ◌-◌, ◌<◌, ◌≡◌, sym, ap, ap₂, ◌∙◌, ◌≢◌, true, false, List, [], ◌∷◌, ◌++◌, Option, none,
  some, inl, inr, arith, ◌==◌, ltb, if◌then◌else◌, length, get_or, set, length-set, Bool-cases,
  lt→ltb,
}
use mathlib.Core.Option
use ecmc_plugin_grbl.Ring.{
  next, used, window, window_of_ne_zero, window-set, offset-used, length-window,
}
use ecmc_plugin_grbl.Serial.{
  Buffer, tx_buffer_size, tx_ring_buffer, next_index, store, serial_write, get_char_from_tx_buffer,
  tx_buffer_count,
}

-- The transmit buffer's array and indices.
pub record IsValid (b : Buffer) : Type 0 where
  pub cells_in : length b.cells ≡ tx_ring_buffer
  pub head_in : b.head < tx_ring_buffer
  pub tail_in : b.tail < tx_ring_buffer

abbrev pub count : Buffer → ℕ
count b = used tx_ring_buffer b.head b.tail

-- The bytes that wait to be fetched, oldest first.
abbrev pub pending : Buffer → List ℕ
pending b = window 0 tx_ring_buffer b.cells (count b) b.tail

pub tx_buffer_count_lem : {b : Buffer} → IsValid b → tx_buffer_count b ≡ count b
unfolding tx_buffer_count
tx_buffer_count_lem v = ground arith

pub store-IsValid : {b : Buffer} (c : ℕ) → IsValid b → IsValid (store tx_ring_buffer b c)
store-IsValid {b} c v = ground (arith, length-set b.cells b.head c)

pub get_char-IsValid : {b : Buffer} → IsValid b → IsValid (get_char_from_tx_buffer b).1
unfolding get_char_from_tx_buffer
get_char-IsValid v = ground arith

count-store :
    {b : Buffer} (c : ℕ)
    → IsValid b
    → count b < tx_buffer_size
    → count (store tx_ring_buffer b c) ≡ suc (count b)
count-store {b} c v room = ground arith

store-pending :
    {b : Buffer} (c : ℕ)
    → IsValid b
    → count b < tx_buffer_size
    → pending (store tx_ring_buffer b c) ≡ pending b ++ c ∷ []
store-pending {b} c v room =
    ap (λ k. window 0 tx_ring_buffer (set b.cells b.head c) k b.tail) (count-store c v room)
    ∙ window-set 0 tx_ring_buffer c b.cells (count b) b.tail b.head (omega (arith, v.cells_in))
        v.tail_in (omega arith) (sym (offset-used tx_ring_buffer b.head b.tail v.head_in v.tail_in))

-- What the writer's store must do to the queue of pending bytes: append, unless 104 wait.
pub write_of : List ℕ → ℕ → Option (List ℕ)
write_of q c = if ltb (length q) tx_buffer_size then some (q ++ c ∷ []) else none

length-pending : (b : Buffer) → length (pending b) ≡ count b
length-pending b = length-window 0 tx_ring_buffer b.cells (count b) b.tail

has_room :
    {b : Buffer}
    → IsValid b
    → (next_index tx_ring_buffer b.head == b.tail) ≡ false
    → count b < tx_buffer_size
has_room v e = ground arith

no_room :
    {b : Buffer}
    → IsValid b
    → (next_index tx_ring_buffer b.head == b.tail) ≡ true
    → count b ≡ tx_buffer_size
no_room v e = ground arith

-- In a valid buffer `serial_write` stores exactly if fewer than 104 bytes wait, and then appends its byte.
pub serial_write_refines :
    {b : Buffer} (c : ℕ)
    → IsValid b
    → Option.map pending (serial_write b c) ≡ write_of (pending b) c
unfolding serial_write write_of
serial_write_refines {b} c v = elim (Bool-cases (next_index tx_ring_buffer b.head == b.tail)) [
  | inl e ↦ rw (e, length-pending b, no_room v e)
  | inr e ↦
      rw (e, length-pending b, lt→ltb (count b) tx_buffer_size (has_room v e))
        (ap some (store-pending c v (has_room v e)))
]

-- A fetch from a valid buffer with bytes pending takes the oldest, and leaves the others.
pub get_char_lem :
    {b : Buffer}
    → IsValid b
    → b.head ≢ b.tail
    → pending b ≡ (get_char_from_tx_buffer b).0 ∷ pending (get_char_from_tx_buffer b).1
unfolding get_char_from_tx_buffer
get_char_lem {b} v ne =
    window_of_ne_zero 0 tx_ring_buffer b.cells (count b) b.tail (ground arith)
    ∙ ap (λ w. get_or b.cells b.tail 0 ∷ w) (ap₂ (window 0 tx_ring_buffer b.cells) left moved)
  where
    moved : next tx_ring_buffer b.tail ≡ next_index tx_ring_buffer b.tail
    moved = ground arith

    left : count b - 1 ≡ used tx_ring_buffer b.head (next_index tx_ring_buffer b.tail)
    left = ground arith

-- A fetch with none pending makes the buffer look full, with 104 bytes pending.
pub get_char_underflow :
    {b : Buffer}
    → IsValid b
    → b.head ≡ b.tail
    → length (pending (get_char_from_tx_buffer b).1) ≡ tx_buffer_size
unfolding get_char_from_tx_buffer
get_char_underflow {b} v e = length-pending (get_char_from_tx_buffer b).1 ∙ ground arith
