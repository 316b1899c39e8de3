-- ===== src/Gcode/Bits.antt =====
-- grbl_gcode.h: the bits of `command_words` and `value_words`, two `uint16_t` of `gc_execute_line`, as
-- lists of Booleans.
use ecmc_plugin_grbl.Base.{ℕ, Bool, true, false, ◌||◌, List, [], ◌∷◌, get_or, set, replicate}
use ecmc_plugin_grbl.Base.Float.{Vec3}

-- A `uint16_t` of flags, `bit_istrue` and the assignment of a bit.
abbrev pub no_words : List Bool
no_words = replicate 16 false

abbrev pub has : List Bool → ℕ → Bool
has words bit = get_or words bit false

abbrev pub mark : List Bool → ℕ → List Bool
mark words bit = set words bit true

-- `bit_false` for several bits.
abbrev pub unmark : List ℕ → List Bool → List Bool
unmark [] words = words
unmark (bit ∷ bits) words = unmark bits (set words bit false)

-- Whether a set of flags is not zero.
abbrev pub any : List Bool → Bool
any [] = false
any (b ∷ words) = b || any words

abbrev pub any_axis : Vec3 Bool → Bool
any_axis words = words.x || words.y || words.z

-- MODAL_GROUP_G0 to MODAL_GROUP_M8
abbrev pub group_g0 : ℕ
group_g0 = 0

abbrev pub group_g1 : ℕ
group_g1 = 1

abbrev pub group_g2 : ℕ
group_g2 = 2

abbrev pub group_g3 : ℕ
group_g3 = 3

abbrev pub group_g4 : ℕ
group_g4 = 4

abbrev pub group_g5 : ℕ
group_g5 = 5

abbrev pub group_g6 : ℕ
group_g6 = 6

abbrev pub group_g7 : ℕ
group_g7 = 7

abbrev pub group_g8 : ℕ
group_g8 = 8

abbrev pub group_g12 : ℕ
group_g12 = 9

abbrev pub group_g13 : ℕ
group_g13 = 10

abbrev pub group_m4 : ℕ
group_m4 = 11

abbrev pub group_m7 : ℕ
group_m7 = 12

abbrev pub group_m8 : ℕ
group_m8 = 13

-- WORD_F to WORD_Z
abbrev pub word_f : ℕ
word_f = 0

abbrev pub word_i : ℕ
word_i = 1

abbrev pub word_j : ℕ
word_j = 2

abbrev pub word_k : ℕ
word_k = 3

abbrev pub word_l : ℕ
word_l = 4

abbrev pub word_n : ℕ
word_n = 5

abbrev pub word_p : ℕ
word_p = 6

abbrev pub word_r : ℕ
word_r = 7

abbrev pub word_s : ℕ
word_s = 8

abbrev pub word_t : ℕ
word_t = 9

abbrev pub word_x : ℕ
word_x = 10

abbrev pub word_y : ℕ
word_y = 11

abbrev pub word_z : ℕ
word_z = 12
