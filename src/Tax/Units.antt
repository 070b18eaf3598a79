-- ===== src/Tax/Units.antt =====
-- Ten-thousandths of a yen, and the parts of an amount that lie in a range.
use k_aikei.Prelude.{ℕ, ◌*◌, ◌-◌, ◌≤◌, min, arith}

-- units in a yen
abbrev pub per_yen : ℕ
per_yen = 10000

-- `n` yen
abbrev pub yen : ℕ → ℕ
yen n = n * per_yen

-- A rate on the part of the amount that lies between two bounds.
unfoldable pub slice : ℕ → ℕ → ℕ → ℕ → ℕ
slice lower upper rate amount = (min amount upper - lower) * rate

pub slice_mono :
    (lower upper rate i j : ℕ) → i ≤ j → slice lower upper rate i ≤ slice lower upper rate j
unfolding slice
slice_mono lower upper rate i j h =
    let d : min i upper - lower ≤ min j upper - lower = omega arith in grind arith
