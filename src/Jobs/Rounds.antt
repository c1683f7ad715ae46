-- ===== src/Jobs/Rounds.antt =====
-- jobs.py: what a round raises does not stop the worker.
use mikrotik.Prelude.{ℕ, zero, suc, ◌+◌, ◌≡◌, refl, ◌≤◌, some, List, length, arith, ap, [], ◌∷◌}
use mikrotik.World.{World, Result, ok, ◌>>=◌}
use mikrotik.Settings.{Os}
use mikrotik.Jobs.{run, job_interval, Maintained, maintain, sleep}

-- The world at the start of the next round: what maintenance left, so many seconds later.
abbrev pub rested : ℕ → World → World
rested interval s = let after = (maintain s).1 in record after { now = after.now + interval }

-- The rounds between two worlds, with what each of them ended with.
pub data Rounds (interval : ℕ) : World → List (Result Maintained) → World → Type 0 where
  no_round : (s : World) → Rounds interval s [] s
  round :
      (s t : World) (outcomes : List (Result Maintained))
      → Rounds interval (rested interval s) outcomes t
      → Rounds interval s ((maintain s).0 ∷ outcomes) t

run-Rounds :
    (interval rounds : ℕ) (s : World)
    → (outcomes : List (Result Maintained)) × ((run interval rounds s).0 ≡ ok outcomes)
      × (length outcomes ≡ rounds)
      × Rounds interval s outcomes (run interval rounds s).1
unfolding run ◌>>=◌ sleep
run-Rounds interval zero s = ([], refl, refl, Rounds.no_round s)
run-Rounds interval (suc rounds) s =
    let (outcomes, e, n, r) = run-Rounds interval rounds (rested interval s) in
    ((maintain s).0 ∷ outcomes, rw e refl, ap suc n, rw e (Rounds.round s _ outcomes r))

-- The worker with the interval that the environment gives makes every one of its rounds, however many
-- there are and whatever each of them raises: a round runs the whole maintenance and then sleeps for
-- the interval, which is half a minute or more, and the next round starts from there.
pub run-every_round :
    (os : Os) (interval rounds : ℕ) (s : World)
    → job_interval os ≡ some interval
    → (30 ≤ interval)
      × ((outcomes : List (Result Maintained)) × ((run interval rounds s).0 ≡ ok outcomes)
          × (length outcomes ≡ rounds)
          × Rounds interval s outcomes (run interval rounds s).1)
unfolding job_interval
run-every_round os interval rounds s h = (ground arith, run-Rounds interval rounds s)
