-- ===== src/Cache/Lemmas.antt =====
-- The list of the first numbers.
use optr_jasmine.Prelude.{ℕ, zero, suc, ◌+◌, ◌≡◌, refl, arith, length}
use optr_jasmine.Cache.{count_up}

pub length-count_up : (i n : ℕ) → length (count_up i n) ≡ n
unfolding count_up
length-count_up i zero = refl
length-count_up i (suc n) = omega (arith, length-count_up (i + 1) n)
