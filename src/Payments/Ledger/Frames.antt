-- ===== src/Payments/Ledger/Frames.antt =====
-- services/payment_service.py: what keeps the sessions settled, action by action.
use mikrotik.Prelude.{
  ℕ, String, ◌≡◌, refl, true, false, Option, none, some, List, Bool-cases, Option-cases, inl, inr,
}
use mikrotik.Models.{Db, PaymentSession, Payment, Status, constraints_hold}
use mikrotik.World.{
  World, App, ◌>>=◌, with_session, commit, rollback, refresh, modify, write, flush,
}
use mikrotik.World.Keeps.{Keeps}
use mikrotik.World.Frames.{IsQuiet}
use mikrotik.Crud.{
  next_id, create_log, same_status, save_session, get_payment_session_by_public_id, lookup_session,
}
use mikrotik.Access.Frames.{IsFrame}
use mikrotik.Payments.Ledger.{is_settled, settled, still_recorded, settled-put, find-holds}

-- The sessions are settled, and the payments from before are on record.
pub record IsLedger (before : List Payment) (d : Db) : Type 0 where
  pub sessions : settled d ≡ true
  pub payments : still_recorded before d.payments ≡ true

-- Committed and in the open session.
pub record HasLedger (before : List Payment) (s : World) : Type 0 where
  pub committed : IsLedger before s.db
  pub working : IsLedger before s.session

-- The ledger, and a session that fits it.
pub record HasRow (before : List Payment) (row : PaymentSession) (s : World) : Type 0 where
  pub ledger : HasLedger before s
  pub row_settled : is_settled s.session.payments row ≡ true

pub settled-unless :
    (payments : List Payment) (row : PaymentSession)
    → same_status row.status Status.provisioned ≡ false
    → is_settled payments row ≡ true
settled-unless payments row h = rw h refl

module _ (before : List Payment) where
  pub ledger-quiet : IsQuiet (HasLedger before)
  ledger-quiet = record {
    drawn = λ s n h. record { committed = h.committed; working = h.working };
    called = λ s cs h. record { committed = h.committed; working = h.working };
  }

  pub save-at :
      (row : PaymentSession) (s : World)
      → HasLedger before s
      → is_settled s.session.payments row ≡ true
      → HasLedger before (save_session row s).1
  unfolding save_session modify
  save-at row s h held = record {
    committed = h.committed;
    working = record {
      sessions =
          settled-put s.session.payments s.now row s.session.payment_sessions held
            h.working.sessions;
      payments = h.working.payments;
    };
  }

  pub save-Keeps :
      (row : PaymentSession)
      → same_status row.status Status.provisioned ≡ false
      → Keeps (HasLedger before) (save_session row)
  save-Keeps row open_row = record { at = λ s h. save-at row s h (settled-unless _ row open_row) }

  pub next_id-Keeps : Keeps (HasLedger before) next_id
  unfolding next_id ◌>>=◌
  next_id-Keeps = record { at = λ s h. record { committed = h.committed; working = h.working } }

  pub create_log-Keeps :
      (description : String) (phone : Option String) (router_id : Option ℕ) (level : String)
      (event_type : Option String)
      → Keeps (HasLedger before) (create_log description phone router_id level event_type)
  unfolding create_log next_id ◌>>=◌ write flush
  create_log-Keeps description phone router_id level event_type = record {
    at = λ s h. record {
      committed = h.committed;
      working = record { sessions = h.working.sessions; payments = h.working.payments };
    };
  }

  pub commit-Keeps : Keeps (HasLedger before) commit
  unfolding commit
  commit-Keeps = record {
    at = λ s h. elim (Bool-cases (constraints_hold s.session)) [
      | inl fits ↦ rw fits (record { committed = h.working; working = h.working })
      | inr clashes ↦ rw clashes h
    ];
  }

  pub rollback-Keeps : Keeps (HasLedger before) rollback
  unfolding rollback
  rollback-Keeps = record { at = λ s h. record { committed = h.committed; working = h.committed } }

  pub with_session-Keeps :
      {A : Type 0} (m : App A)
      → Keeps (HasLedger before) m
      → Keeps (HasLedger before) (with_session m)
  unfolding with_session
  with_session-Keeps m km = record {
    at = λ s h.
        let after = km.at (refresh s) (record { committed = h.committed; working = h.committed }) in
        record { committed = after.committed; working = after.committed };
  }

  -- Provisioning a session that is not provisioned yet keeps the ledger.
  pub open-frame :
      (row : PaymentSession)
      → same_status row.status Status.provisioned ≡ false
      → IsFrame row (HasLedger before)
  open-frame row open_row = record {
    quiet = ledger-quiet;
    hotspot = λ s l h. record {
      committed = h.committed;
      working = record { sessions = h.working.sessions; payments = h.working.payments };
    };
    ppp = λ s l h. record {
      committed = h.committed;
      working = record { sessions = h.working.sessions; payments = h.working.payments };
    };
    access = λ s r same h. record {
      committed = h.committed;
      working = record {
        sessions =
            settled-put s.session.payments s.now r s.session.payment_sessions
              (settled-unless _ r (rw same.status open_row)) h.working.sessions;
        payments = h.working.payments;
      };
    };
  }

  -- Preparing the access of a session keeps the ledger, whatever the session's status is.
  pub row-frame : (row : PaymentSession) → IsFrame row (HasRow before row)
  row-frame row = record {
    quiet = record {
      drawn = λ s n h. record {
        ledger = record { committed = h.ledger.committed; working = h.ledger.working };
        row_settled = h.row_settled;
      };
      called = λ s cs h. record {
        ledger = record { committed = h.ledger.committed; working = h.ledger.working };
        row_settled = h.row_settled;
      };
    };
    hotspot = λ s l h. record {
      ledger = record {
        committed = h.ledger.committed;
        working = record {
          sessions = h.ledger.working.sessions;
          payments = h.ledger.working.payments;
        };
      };
      row_settled = h.row_settled;
    };
    ppp = λ s l h. record {
      ledger = record {
        committed = h.ledger.committed;
        working = record {
          sessions = h.ledger.working.sessions;
          payments = h.ledger.working.payments;
        };
      };
      row_settled = h.row_settled;
    };
    access = λ s r same h. record {
      ledger = record {
        committed = h.ledger.committed;
        working = record {
          sessions =
              settled-put s.session.payments s.now r s.session.payment_sessions
                (rw (same.status, same.public_id) h.row_settled) h.ledger.working.sessions;
          payments = h.ledger.working.payments;
        };
      };
      row_settled = h.row_settled;
    };
  }

  -- What is done with a session that was looked up keeps the ledger if it does so for every session
  -- that fits the ledger.
  pub found-Keeps :
      {A : Type 0} (public_id : String) (next : Option PaymentSession → App A)
      → Keeps (HasLedger before) (next none)
      → ((row : PaymentSession) (s : World)
          → HasRow before row s
          → HasLedger before (next (some row) s).1)
      → Keeps (HasLedger before) (get_payment_session_by_public_id public_id >>= next)
  unfolding get_payment_session_by_public_id ◌>>=◌
  found-Keeps public_id next absent present = record {
    at = λ s h. elim (Option-cases (lookup_session public_id s.session.payment_sessions)) [
      | inl missing ↦ rw missing (absent.at s h)
      | inr (row, found) ↦ rw found (
          present row s (record {
            ledger = h;
            row_settled =
                find-holds (is_settled s.session.payments) _ s.session.payment_sessions row
                  h.working.sessions found;
          }))
    ];
  }
