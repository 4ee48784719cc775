-- ===== src/Channel/Pipes/Timeout.antt =====
-- The timeouts of `accept` and `connect` of src/windows/channel.rs, which the system takes as 32 bits.
use sandbox_ipc.Prelude.{ℕ, ◌+◌, ◌*◌, ◌/◌, ◌^◌, ◌≤◌, ◌<◌, ◌≡◌, ◌≢◌, some, none, arith}
use sandbox_ipc.Channel.Pipes.{millis, infinite}

-- The milliseconds of a `Duration`, rounded down.
abbrev pub total : (secs nanos : ℕ) → ℕ
total secs nanos = secs * 1000 + nanos / 1000000

-- A timeout of less than 2^32 - 1 milliseconds is passed on exactly, and is not that of an endless
-- wait; but one of 2^32 milliseconds or more is passed on as less than what was asked for, if its
-- milliseconds fit 64 bits, and one of 2^32 - 1 as an endless wait, which is that without a timeout.
pub millis-exact :
    (secs nanos long_secs long_nanos max_secs max_nanos : ℕ)
    → total secs nanos < infinite
    → 2 ^ 32 ≤ total long_secs long_nanos
    → total long_secs long_nanos < 2 ^ 64
    → total max_secs max_nanos ≡ infinite
    → (millis (some (secs, nanos)) ≡ total secs nanos)
      × (millis (some (secs, nanos)) ≢ infinite)
      × (millis (some (long_secs, long_nanos)) < total long_secs long_nanos)
      × (millis (some (max_secs, max_nanos)) ≡ millis none)
unfolding millis
millis-exact secs nanos long_secs long_nanos max_secs max_nanos h long fits max =
    (omega arith, omega arith, omega arith, omega arith)
