-- ===== src/Mikrotik/Times.antt =====
-- services/mikrotik_service.py: the parts of `routeros_duration`.
use mikrotik.Prelude.{ℕ, ◌+◌, ◌*◌, ◌<◌, ◌≡◌, refl, arith}
use mikrotik.Mikrotik.{duration_parts, routeros_duration}

-- The days, hours and minutes of a duration lie in their ranges and make up its minutes.
pub duration_parts-total :
    (minutes : ℕ)
    → let (days, hours, mins) = duration_parts minutes in
      (days * 1440 + hours * 60 + mins ≡ minutes) × (hours < 24) × (mins < 60)
unfolding duration_parts
duration_parts-total minutes = (omega arith, omega arith, omega arith)

one_day_and_a_bit : routeros_duration 1505 ≡ "1d01:05:00"
unfolding routeros_duration
one_day_and_a_bit = refl

half_an_hour : routeros_duration 30 ≡ "00:30:00"
unfolding routeros_duration
half_an_hour = refl
