-- ===== src/Eeprom/Checksum.antt =====
-- grbl_eeprom.c: what the checksum of a block depends on.
use ecmc_plugin_grbl.Base.{
  ℕ, ◌+◌, ◌%◌, ◌≡◌, refl, ◌∙◌, sym, ◌≢◌, List, [], ◌∷◌, ◌++◌, arith, ◌==◌, if◌then◌else◌,
}
use ecmc_plugin_grbl.Eeprom.{checksum_step, checksum_of}

-- The step keeps of the checksum only whether it is 0.
checksum_step_lem : (k c : ℕ) → checksum_step k c ≡ ((if k == 0 then c else c + 1) % 256)
unfolding checksum_step
checksum_step_lem k c = ground arith

checksum_of-append :
    (k : ℕ) (xs ys : List ℕ) → checksum_of k (xs ++ ys) ≡ checksum_of (checksum_of k xs) ys
unfolding checksum_of
checksum_of-append k [] ys = refl
checksum_of-append k (x ∷ xs) ys = checksum_of-append (checksum_step k x) xs ys

-- The turn of the checksum is lost: two blocks that end in the same byte have the same checksum,
-- whatever the bytes before it are, if neither has the checksum 0 up to there.
pub checksum_forgets :
    (xs ys : List ℕ) (c : ℕ)
    → checksum_of 0 xs ≢ 0
    → checksum_of 0 ys ≢ 0
    → checksum_of 0 (xs ++ c ∷ []) ≡ checksum_of 0 (ys ++ c ∷ [])
unfolding checksum_of
checksum_forgets xs ys c hx hy =
    checksum_of-append 0 xs (c ∷ [])
    ∙ last (checksum_of 0 xs) (checksum_of 0 ys) c hx hy
    ∙ sym (checksum_of-append 0 ys (c ∷ []))
  where
    last : (j k c : ℕ) → j ≢ 0 → k ≢ 0 → checksum_step j c ≡ checksum_step k c
    last j k c hj hk = ground (arith, checksum_step_lem j c, checksum_step_lem k c)
