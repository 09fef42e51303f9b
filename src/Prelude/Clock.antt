-- ===== src/Prelude/Clock.antt =====
-- Times of day. The program writes ISO texts with milliseconds (`utc_now` of core/runtime/models.py)
-- and reads them back by `datetime.fromisoformat`.
use Prim.Native.Nat.{ℕ, ◌+◌, ◌-◌, ◌%◌, ◌≤◌, ◌<◌}
use Prim.Native.String.{String}
use native.Mathlib.Omega.{arith}

-- A stored time: the microsecond that the text denotes, or a text that `fromisoformat` refuses.
pub data Iso : Type 0 where
  moment : ℕ → Iso
  unreadable : String → Iso

-- A reading of the clock in microseconds, cut to the millisecond.
abbrev pub millis : ℕ → ℕ
millis clock = clock - clock % 1000

abbrev pub utc_now : ℕ → Iso
utc_now clock = moment (millis clock)

pub millis-le : (clock : ℕ) → millis clock ≤ clock
millis-le clock = omega arith

pub lt-millis : (clock : ℕ) → clock < millis clock + 1000
lt-millis clock = omega arith
