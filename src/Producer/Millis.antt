-- ===== src/Producer/Millis.antt =====
-- What `int(seconds * 1_000)` in src/producer/ comes to for a time in microseconds.
use streaming_fpuna_proyecto.Base.{ℕ, ◌+◌, ◌*◌, ◌≤◌, ◌<◌, arith}
use streaming_fpuna_proyecto.Base.Int.{ℤ, pos, negsuc, pos_part, neg_part}
use streaming_fpuna_proyecto.Producer.{milliseconds}

-- whole thousands
abbrev pub IsThousands : ℕ → ℕ → Type 0
IsThousands u k = (k * 1000 ≤ u) × (u < k * 1000 + 1000)

-- whole milliseconds of microseconds, towards zero
abbrev pub IsMillis : ℤ → ℤ → Type 0
IsMillis t m = IsThousands (pos_part t) (pos_part m) × IsThousands (neg_part t) (neg_part m)

pub milliseconds-IsMillis : (t : ℤ) → IsMillis t (milliseconds t)
milliseconds-IsMillis (pos u) = ground arith
milliseconds-IsMillis (negsuc n) = ground arith
