-- ===== src/Serial/Receive.antt =====
-- grbl_serial.c: the receive buffer as a queue of at most 100 bytes.
use ecmc_plugin_grbl.Base.{
  ℕ, suc, ◌+◌, ◌-◌, ◌<◌, ◌≡◌, ◌≢◌, ◌∙◌, ap, ap₂, sym, ==→eq, ==→ne, List, [], ◌∷◌, ◌++◌, arith,
  ◌==◌, leb, if◌then◌else◌, length, get_or, set, length-set, inl, inr, Bool-cases,
}
use ecmc_plugin_grbl.Ring.{
  next, used, window, window_of_ne_zero, window-set, window-set_outside, offset-used,
}
use ecmc_plugin_grbl.Serial.{
  Buffer, rx_buffer_size, rx_ring_buffer, rx_buffer_available, rx_buffer_count, serial_read, store,
  no_data, next_index,
}

-- The receive buffer's array and indices.
pub record IsValid (b : Buffer) : Type 0 where
  pub cells_in : length b.cells ≡ rx_ring_buffer
  pub head_in : b.head < rx_ring_buffer
  pub tail_in : b.tail < rx_ring_buffer

abbrev pub count : Buffer → ℕ
count b = used rx_ring_buffer b.head b.tail

-- The unread bytes, oldest first.
abbrev pub unread : Buffer → List ℕ
unread b = window 0 rx_ring_buffer b.cells (count b) b.tail

-- The bytes in use and the bytes available make up RX_BUFFER_SIZE.
pub available_lem : {b : Buffer} → IsValid b → rx_buffer_available b + count b ≡ rx_buffer_size
unfolding rx_buffer_available
available_lem v = ground arith

-- Of a valid buffer, the reported count is right while the unread bytes are in one piece, and one too small when the head
-- has wrapped.
pub count_lem :
    {b : Buffer}
    → IsValid b
    → rx_buffer_count b ≡ (if leb b.tail b.head then count b else count b - 1)
unfolding rx_buffer_count
count_lem v = ground arith

pub store-IsValid : {b : Buffer} (c : ℕ) → IsValid b → IsValid (store rx_ring_buffer b c)
store-IsValid {b} c v = ground (arith, length-set b.cells b.head c)

pub serial_read-IsValid : {b : Buffer} → IsValid b → IsValid (serial_read b).1
unfolding serial_read
serial_read-IsValid {b} v = ground (arith, length-set b.cells b.tail 0)

pub count-store :
    {b : Buffer} (c : ℕ)
    → IsValid b
    → count b < rx_buffer_size
    → count (store rx_ring_buffer b c) ≡ suc (count b)
count-store {b} c v room = ground arith

-- With room, a stored byte goes behind the unread ones.
pub store-unread :
    {b : Buffer} (c : ℕ)
    → IsValid b
    → count b < rx_buffer_size
    → unread (store rx_ring_buffer b c) ≡ unread b ++ c ∷ []
store-unread {b} c v room =
    ap (λ k. window 0 rx_ring_buffer (set b.cells b.head c) k b.tail) (count-store c v room)
    ∙ window-set 0 rx_ring_buffer c b.cells (count b) b.tail b.head (omega (arith, v.cells_in))
        v.tail_in (omega arith) (sym (offset-used rx_ring_buffer b.head b.tail v.head_in v.tail_in))

-- A byte that is stored in a valid buffer with 100 bytes unread makes the buffer look empty.
pub store-overflow :
    {b : Buffer} (c : ℕ)
    → IsValid b
    → count b ≡ rx_buffer_size
    → unread (store rx_ring_buffer b c) ≡ []
store-overflow {b} c v full =
    ap (λ k. window 0 rx_ring_buffer (set b.cells b.head c) k b.tail) zero_used
  where
    zero_used : count (store rx_ring_buffer b c) ≡ 0
    zero_used = ground arith

-- A read takes the oldest unread byte; with none it gives SERIAL_NO_DATA.
pub read_of : List ℕ → ℕ × List ℕ
read_of [] = (no_data, [])
read_of (c ∷ rest) = (c, rest)

unread-empty : (b : Buffer) → b.head ≡ b.tail → unread b ≡ []
unread-empty b e = ap (λ k. window 0 rx_ring_buffer b.cells k b.tail) zero_used
  where
    zero_used : count b ≡ 0
    zero_used = ground arith

-- The buffer that a read of a byte leaves.
abbrev advanced : Buffer → Buffer
advanced b = record b { cells = set b.cells b.tail 0; tail = next_index rx_ring_buffer b.tail }

unread-advanced :
    {b : Buffer}
    → IsValid b
    → b.head ≢ b.tail
    → unread b ≡ get_or b.cells b.tail 0 ∷ unread (advanced b)
unread-advanced {b} v ne =
    window_of_ne_zero 0 rx_ring_buffer b.cells (count b) b.tail (ground arith)
    ∙ ap (λ w. get_or b.cells b.tail 0 ∷ w) (sym after)
  where
    moved : next_index rx_ring_buffer b.tail ≡ next rx_ring_buffer b.tail
    moved = ground arith

    left : count (advanced b) ≡ count b - 1
    left = ground arith

    after :
        unread (advanced b)
        ≡ window 0 rx_ring_buffer b.cells (count b - 1) (next rx_ring_buffer b.tail)
    after =
        ap₂ (window 0 rx_ring_buffer (set b.cells b.tail 0)) left moved
        ∙ window-set_outside 0 rx_ring_buffer 0 b.cells (count b - 1) (next rx_ring_buffer b.tail)
            100 b.tail (ground arith) (ground arith) (omega arith) (ground arith)

-- The unread bytes of a valid buffer behave as a queue: a read takes the oldest, or gives SERIAL_NO_DATA.
pub serial_read_refines :
    {b : Buffer} → IsValid b → let (c, b') = serial_read b in (c, unread b') ≡ read_of (unread b)
unfolding serial_read read_of
serial_read_refines {b} v = elim (Bool-cases (b.head == b.tail)) [
  | inl e ↦ rw (e, unread-empty b (==→eq b.head b.tail e))
  | inr ne ↦ rw (ne, unread-advanced v (==→ne b.head b.tail ne))
]
