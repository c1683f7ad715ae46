-- ===== src/Mikrotik/Duration.antt =====
-- services/mikrotik_service.py: `routeros_duration`.
use mikrotik.Prelude.{ℕ, ◌*◌, ◌/◌, ◌%◌, String, join, show_number, show_two, ◌==◌, if◌then◌else◌}

-- The days, hours and minutes of `timedelta(minutes=minutes)`; its `seconds` are those of the day.
unfoldable pub duration_parts : ℕ → ℕ × ℕ × ℕ
duration_parts minutes =
    let days = minutes * 60 / 86400 in
    let seconds = minutes * 60 % 86400 in
    let hours = seconds / 3600 in let remainder = seconds % 3600 in (days, hours, remainder / 60)

clock_text : ℕ → ℕ → String
unfolding show_two
clock_text hours mins = join (show_two hours) (join ":" (join (show_two mins) ":00"))

unfoldable pub routeros_duration : ℕ → String
unfolding duration_parts clock_text show_number
routeros_duration minutes =
    let (days, hours, mins) = duration_parts minutes in
    if days == 0
    then clock_text hours mins
    else join (show_number days) (join "d" (clock_text hours mins))
