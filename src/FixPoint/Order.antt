-- ===== src/FixPoint/Order.antt =====
-- The comparison of src/hsr_battle_agent/battle_runtime/predicates.py against the numbers that the
-- raw words stand for.
use hsr_battle_agent.Base.{ℕ, ◌+◌, ◌-◌, ◌*◌, ◌%◌, ◌^◌, ◌<◌, ◌≡◌, ◌==◌, if◌then◌else◌, arith}
use hsr_battle_agent.Base.Int.{ℤ, pos, negsuc, compare_ℤ}
use hsr_battle_agent.FixPoint.{mask64, to_signed64, compare_words, fixpoint_compare}

-- 128 times a signed integer
abbrev pub times_128 : ℤ → ℤ
times_128 (pos n) = pos (n * 128)
times_128 (negsuc n) = negsuc (n * 128 + 127)

-- The value of a raw word in units of 2^-33.
unfoldable pub scaled_word : ℕ → ℤ
scaled_word w = if w % 2 == 1 then times_128 (to_signed64 (w - w % 2)) else to_signed64 w

unfoldable pub scaled : ℤ → ℤ
scaled raw = scaled_word (mask64 raw)

pub compare_words-scaled :
    (l r : ℕ)
    → l < 2 ^ 64
    → r < 2 ^ 64
    → compare_words l r ≡ compare_ℤ (scaled_word l) (scaled_word r)
unfolding compare_words scaled_word
compare_words-scaled l r hl hr = ground arith

pub mask64-lt : (v : ℤ) → mask64 v < 2 ^ 64
mask64-lt (pos n) = omega arith
mask64-lt (negsuc n) = omega arith

-- The comparison of two raw values is that of the numbers they stand for, in units of 2^-33, for every
-- pair of encodings.
pub fixpoint_compare-scaled : (l r : ℤ) → fixpoint_compare l r ≡ compare_ℤ (scaled l) (scaled r)
unfolding fixpoint_compare scaled
fixpoint_compare-scaled l r = compare_words-scaled _ _ (mask64-lt l) (mask64-lt r)
