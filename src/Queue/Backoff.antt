-- ===== src/Queue/Backoff.antt =====
-- `next_backoff` of app/collection/outbox.py.
use threatforge.Common.{ℕ, ◌+◌, ◌-◌, ◌*◌, ◌^◌, ◌≤◌, min, arith}
use native.Mathlib.Nat.{pow-le-pow_right}
use threatforge.Models.{Time, seconds}

-- min(cap_seconds, base_seconds * (2 ** max(0, int(attempts) - 1))); `-` stops at 0, as the `max`.
unfoldable pub delay_seconds : ℕ → ℕ → ℕ → ℕ
delay_seconds attempts base cap = min cap (base * 2 ^ (attempts - 1))

unfoldable pub next_backoff : ℕ → ℕ → ℕ → Time → Time
next_backoff attempts base cap now = now + seconds (delay_seconds attempts base cap)

power_mono : (a b : ℕ) → a ≤ b → 2 ^ a ≤ 2 ^ b
power_mono a b h = pow-le-pow_right (omega arith) h

scaled : (base : ℕ) {x y : ℕ} → x ≤ y → base * x ≤ base * y
scaled base h = grind arith

power_pos : (a : ℕ) → 1 ≤ 2 ^ a
power_pos a = power_mono 0 a (omega arith)

delay_mono : (n k base cap : ℕ) → n ≤ k → delay_seconds n base cap ≤ delay_seconds k base cap
unfolding delay_seconds
delay_mono n k base cap h = omega (arith, scaled base (power_mono (n - 1) (k - 1) (omega arith)))

delay-le-cap : (n base cap : ℕ) → delay_seconds n base cap ≤ cap
unfolding delay_seconds
delay-le-cap n base cap = omega arith

delay_start : (n base cap : ℕ) → min cap base ≤ delay_seconds n base cap
unfolding delay_seconds
delay_start n base cap = omega (arith, scaled base (power_pos (n - 1)))

-- No retry is due before `base` seconds have passed (or the cap, if that is less), none is put off
-- by more than the cap, and a later attempt is not scheduled earlier than a former one.
pub backoff_bounds :
    (n k base cap : ℕ) (now : Time)
    → n ≤ k
    → (now + seconds (min cap base) ≤ next_backoff n base cap now)
      × (next_backoff n base cap now ≤ next_backoff k base cap now)
      × (next_backoff k base cap now ≤ now + seconds cap)
unfolding next_backoff
backoff_bounds n k base cap now h =
    omega (arith, delay_start n base cap, delay_mono n k base cap h, delay-le-cap k base cap)
