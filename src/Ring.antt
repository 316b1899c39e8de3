-- ===== src/Ring.antt =====
-- Circular buffers, as serial.c and planner.c keep them: an index steps to the next place and goes
-- back to 0 at the size, and one place stays free, so that a full buffer differs from an empty one.
use ecmc_plugin_grbl.Base.{
  ℕ, zero, suc, ◌+◌, ◌-◌, ◌≤◌, ◌<◌, ◌≡◌, refl, ap, ap₂, ◌∙◌, ◌≢◌, List, [], ◌∷◌, ◌++◌, arith, leb,
  ◌==◌, if◌then◌else◌, length, get_or, set, get_or-set_self, get_or-set_ne, map,
}

-- `i++; if (i == size) { i = 0; }`
abbrev pub next : ℕ → ℕ → ℕ
next size i = if (i + 1) == size then 0 else i + 1

-- The number of places from `tail` up to `head`.
abbrev pub used : ℕ → ℕ → ℕ → ℕ
used size head tail = if leb tail head then head - tail else head + size - tail

-- The place `n` steps after `i`.
abbrev pub offset : ℕ → ℕ → ℕ → ℕ
offset size i n = if leb size (i + n) then i + n - size else i + n

module _ {ℓ} {A : Type ℓ} (d : A) (size : ℕ) (buf : List A) where
  -- The `n` elements from place `i` on.
  abbrev pub window : ℕ → ℕ → List A
  window zero i = []
  window (suc n) i = get_or buf i d ∷ window n (next size i)

  pub length-window : (n i : ℕ) → length (window n i) ≡ n
  length-window zero i = refl
  length-window (suc n) i = ap suc (length-window n (next size i))

  -- `window` matches on `suc`, and the code tests for equal indices.
  pub window_of_ne_zero :
      (n i : ℕ) → n ≢ 0 → window n i ≡ get_or buf i d ∷ window (n - 1) (next size i)
  window_of_ne_zero zero i h = absurd (h refl)
  window_of_ne_zero (suc n) i h = ap (λ k. window (suc k) i) (omega arith)

-- Two buffers that `f` does not tell apart have windows that it does not tell apart.
pub map-window {ℓ κ} :
    {A : Type ℓ} {B : Type κ} (f : A → B) (d : A) (size : ℕ) (b c : List A)
    → ((i : ℕ) → f (get_or b i d) ≡ f (get_or c i d))
    → (n i : ℕ) → map f (window d size b n i) ≡ map f (window d size c n i)
map-window f d size b c h zero i = refl
map-window f d size b c h (suc n) i = ap₂ ◌∷◌ (h i) (map-window f d size b c h n (next size i))

offset_ne : (size i n : ℕ) → i < size → suc n < size → offset size i (suc n) ≢ i
offset_ne size i n hi hn e = ground arith

offset-next :
    (size i n : ℕ) → i < size → suc n < size → offset size i (suc n) ≡ offset size (next size i) n
offset-next size i n hi hn = ground arith

pub next-lt : (size i : ℕ) → i < size → next size i < size
next-lt size i h = ground arith

module _ {ℓ} {A : Type ℓ} (d : A) (size : ℕ) (v : A) where
  -- Writing just past a window extends it by the written element.
  pub window-set :
      (buf : List A) (n i h : ℕ)
      → size ≤ length buf
      → i < size
      → n < size
      → h ≡ offset size i n
      → window d size (set buf h v) (suc n) i ≡ window d size buf n i ++ v ∷ []
  window-set buf zero i h hs hi hn e =
      ap (λ x. x ∷ [])
        (ap (λ k. get_or (set buf k v) i d) (here e) ∙ get_or-set_self buf i v d (omega arith))
    where
      here : h ≡ offset size i zero → h ≡ i
      here e = ground arith
  window-set buf (suc n) i h hs hi hn e =
      ap₂ ◌∷◌ (get_or-set_ne buf v d (λ q. offset_ne size i n hi hn (ground arith))) (
        window-set buf n (next size i) h hs (next-lt size i hi) (omega arith)
          (e ∙ offset-next size i n hi hn))

  -- A write `k` places on, behind the window, leaves the window alone.
  pub window-set_outside :
      (buf : List A) (n i k h : ℕ)
      → i < size
      → n ≤ k
      → k < size
      → h ≡ offset size i k
      → window d size (set buf h v) n i ≡ window d size buf n i
  window-set_outside buf zero i k h hi hn hk e = refl
  window-set_outside buf (suc n) i zero h hi hn hk e = absurd (omega arith)
  window-set_outside buf (suc n) i (suc k) h hi hn hk e =
      ap₂ ◌∷◌ (get_or-set_ne buf v d (λ q. offset_ne size i k hi hk (ground arith))) (
        window-set_outside buf n (next size i) k h (next-lt size i hi) (omega arith) (omega arith)
          (e ∙ offset-next size i k hi hk))

module _ (size head tail : ℕ) (head_in : head < size) (tail_in : tail < size) where
  pub used-lt : used size head tail < size
  used-lt = ground arith

  pub offset-used : offset size tail (used size head tail) ≡ head
  offset-used = ground arith

  pub used-eq-zero : used size head tail ≡ 0 → head ≡ tail
  used-eq-zero e = ground arith

  pub used-next_head :
      next size head ≢ tail → used size (next size head) tail ≡ suc (used size head tail)
  used-next_head ne = ground arith

  pub used-next_tail : head ≢ tail → suc (used size head (next size tail)) ≡ used size head tail
  used-next_tail ne = ground arith

  pub used-full : used size head tail + 1 ≡ size → next size head ≡ tail
  used-full e = ground arith

  pub offset-before : offset size (next size tail) (size - 1) ≡ tail
  offset-before = ground arith
