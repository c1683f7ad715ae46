-- ===== src/Jobs.antt =====
-- jobs.py: the background worker. One round calls the jobs in turn; an exception ends the round.
pub mod Rounds
use mikrotik.Prelude.{ℕ, ◌+◌, zero, suc, Option, none, some, List, [], ◌∷◌, leb, if◌then◌else◌}
use mikrotik.World.{App, Result, pure, attempt, modify, ◌>>=◌, ◌>>◌}
use mikrotik.Settings.{Os, getenv_or}
use mikrotik.Access.{CleanupCounts, cleanup_failed_prepared_hotspot_sessions}
use mikrotik.Maintenance.{ExpiryCounts, expire_access}
use mikrotik.Onboarding.{expire_onboarding_downloads}
use mikrotik.Payments.{Reconciliation, expire_payment_sessions, reconcile_pending_payments}

-- what the round logs as "maintenance_complete"
pub record Maintained : Type 0 where
  pub expired_payments : ℕ
  pub reconciled : Reconciliation
  pub prepared_cleanup : CleanupCounts
  pub access : ExpiryCounts

-- `max(30, int(os.getenv("JOB_INTERVAL_SECONDS", "60")))`; `none` is a `ValueError`
unfoldable pub job_interval : Os → Option ℕ
job_interval os = elim (os.read_int (getenv_or os "JOB_INTERVAL_SECONDS" "60")) [
  | none ↦ none
  | some seconds ↦ some (if leb 30 seconds then seconds else 30)
]

-- the body of the `try` block
unfoldable pub maintain : App Maintained
maintain = do
  expire_onboarding_downloads
  expired_payments ← expire_payment_sessions
  reconciliation ← reconcile_pending_payments 25
  prepared_cleanup ← cleanup_failed_prepared_hotspot_sessions 200
  access ← expire_access
  pure (record {
    expired_payments = expired_payments;
    reconciled = reconciliation;
    prepared_cleanup = prepared_cleanup;
    access = access;
  })

-- `asyncio.sleep(interval)`
unfoldable pub sleep : ℕ → App (Unit {0})
sleep seconds = modify (λ s. record s { now = s.now + seconds })

-- So many rounds of `while True`, with what each ended with.
unfoldable pub run : ℕ → ℕ → App (List (Result Maintained))
unfolding maintain sleep
run interval zero = pure []
run interval (suc rounds) = do
  outcome ← attempt maintain
  sleep interval
  later ← run interval rounds
  pure (outcome ∷ later)
