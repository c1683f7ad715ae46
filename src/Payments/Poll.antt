-- ===== src/Payments/Poll.antt =====
-- services/payment_service.py: the status that a customer polls, and the periodic jobs.
use mikrotik.Prelude.{
  ℕ, ◌+◌, ◌*◌, String, Bool, true, false, not, ◌&&◌, Option, none, some, List, [], ◌∷◌, str_eq,
  or_text, truthy?, take_text, ltb, leb, length, take, filter, order_by, update_where,
  if◌then◌else◌,
}
use mikrotik.Models.{PaymentSession, Status}
use mikrotik.World.{
  App, Attributes, http, Result, ok, err, pure, gets, or_raise, raise_if, write, attempt, commit,
  with_session, ◌>>=◌, ◌>>◌,
}
use mikrotik.Crud.{same_status, get_payment_session_by_public_id, save_session}
use mikrotik.Mikrotik.{get}
use mikrotik.Providers.{query_mpesa}
use mikrotik.Payments.Respond.{PublicResponse, public_response, token_matches}
use mikrotik.Payments.Complete.{complete_payment}

-- `MPESA_STATUS_QUERY_SECONDS`
abbrev pub mpesa_status_query_seconds : ℕ
mpesa_status_query_seconds = 5

-- `{"created", "pending"}`: no provider has confirmed the payment
unfoldable pub is_open : Status → Bool
is_open Status.created = true
is_open Status.pending = true
is_open _ = false

-- `_query_result_code`
unfoldable pub query_result_code : Attributes → String
query_result_code result = elim (get "ResultCode" result) [
  | some code ↦ code
  | none ↦ elim (get "errorCode" result) [ some code ↦ code | none ↦ "" ]
]

-- `result.get("ResultDesc") or result.get("errorMessage")`
unfoldable pub query_description : Attributes → Option String
query_description result =
    if truthy? (get "ResultDesc" result) then get "ResultDesc" result else get "errorMessage" result

unfoldable pub record_found : String → Option String → Option PaymentSession → App (Unit {0})
record_found code description none = pure tt
record_found code description (some row) =
    if same_status row.status Status.pending
    then (do
      save_session (record row {
        result_code = some (take_text 32 code);
        result_description =
            some (take_text 255 (or_text description "Payment confirmation is pending"));
      })
      commit)
    else pure tt

unfoldable pub record_provider_query_state : String → String → Option String → App (Unit {0})
unfolding record_found
record_provider_query_state public_id code description =
    with_session
      do row ← get_payment_session_by_public_id public_id; record_found code description row

-- An exception that is swallowed.
unfoldable pub swallow : Result (Unit {0}) → App (Unit {0})
swallow r = pure tt

unfoldable pub queried : String → Result Attributes → App (Unit {0})
unfolding swallow query_result_code query_description
queried public_id (err e) = pure tt
queried public_id (ok result) =
    if str_eq (query_result_code result) "0"
    then (do
      done ← attempt (
          complete_payment public_id (get "MpesaReceiptNumber" result) (query_result_code result)
            (get "ResultDesc" result))
      swallow done)
    else record_provider_query_state public_id (query_result_code result) (query_description result)

unfoldable pub query_pending_mpesa : String → String → App (Unit {0})
unfolding queried
query_pending_mpesa public_id request_id = do
  result ← attempt (query_mpesa request_id)
  queried public_id result

-- the row whose token matches, or 404
unfoldable pub session_for_token : String → String → App PaymentSession
session_for_token public_id status_token = do
  found ← get_payment_session_by_public_id public_id
  row ← or_raise found (http 404 "Payment not found")
  env ← gets (λ s. s.env)
  raise_if (not (token_matches env status_token row.access_token_hash))
      (http 404 "Payment not found")
  pure row

abbrev pub expired_row : PaymentSession → PaymentSession
expired_row row = record row {
  status = Status.failed;
  result_description = some "Payment session expired";
}

-- Whether this poll is to query the provider: none did in the last seconds.
unfoldable pub may_query : PaymentSession → ℕ → Bool
may_query row now =
    same_status row.status Status.pending
    && str_eq row.provider "mpesa"
    && truthy? row.provider_request_id
    && leb (row.updated_at + mpesa_status_query_seconds) now

unfoldable pub claim_query : PaymentSession → App (PaymentSession × Bool)
unfolding may_query is_open
claim_query row = do
  now ← gets (λ s. s.now)
  if is_open row.status && ltb row.expires_at now
      then (do save_session (expired_row row); commit; pure (expired_row row, false))
      else if may_query row now
      then (do
        let row' : PaymentSession = record row { updated_at = now }
        save_session row'
        commit
        pure (row', true))
      else pure (row, false)

-- the first transaction: the response as it stands, and the query to make
unfoldable pub poll_transaction : String → String → App (PublicResponse × Option String)
unfolding claim_query session_for_token
poll_transaction public_id status_token = with_session do
  row ← session_for_token public_id status_token
  now ← gets (λ s. s.now)
  minutes ← gets (λ s. s.env.settings.payment_status_token_minutes)
  raise_if (ltb (row.created_at + minutes * 60) now) (http 404 "Payment not found")
  (row', should_query) ← claim_query row
  response ← public_response row' false
  pure (response, if should_query then row'.provider_request_id else none)

unfoldable pub after_poll : String → String → PublicResponse → Option String → App PublicResponse
after_poll public_id status_token response none = pure response
after_poll public_id status_token response (some request_id) = do
  query_pending_mpesa public_id request_id
  with_session do row ← session_for_token public_id status_token; public_response row false

unfoldable pub get_public_payment : String → String → App PublicResponse
unfolding after_poll
get_public_payment public_id status_token = do
  (response, query) ← poll_transaction public_id status_token
  after_poll public_id status_token response query

-- the sessions that reconciliation asks the provider about
unfoldable pub is_stale : ℕ → PaymentSession → Bool
is_stale now row =
    str_eq row.provider "mpesa"
    && same_status row.status Status.pending
    && leb (row.updated_at + 30) now
    && ltb now row.expires_at

unfoldable pub candidates : List PaymentSession → List (String × String)
candidates [] = []
candidates (row ∷ rows) =
    let rest = candidates rows in
    if truthy? row.provider_request_id
    then (row.public_id, or_text row.provider_request_id "") ∷ rest
    else rest

pub record Reconciliation : Type 0 where
  pub checked : ℕ
  pub provisioned : ℕ
  pub failed : ℕ
  pub pending : ℕ

-- one round of the loop
unfoldable pub reconcile_one : String → Result Attributes → Reconciliation → App Reconciliation
unfolding query_result_code query_description
reconcile_one public_id (err e) c = pure (record c { pending = c.pending + 1 })
reconcile_one public_id (ok result) c =
    if str_eq (query_result_code result) "0"
    then (do
      complete_payment public_id (get "MpesaReceiptNumber" result) (query_result_code result)
          (get "ResultDesc" result)
      pure (record c { provisioned = c.provisioned + 1 }))
    else do
      record_provider_query_state public_id (query_result_code result) (query_description result)
      pure (record c { pending = c.pending + 1 })

unfoldable pub reconcile_all : List (String × String) → Reconciliation → App Reconciliation
unfolding reconcile_one
reconcile_all [] c = pure c
reconcile_all ((public_id, request_id) ∷ rest) c = do
  result ← attempt (query_mpesa request_id)
  c' ← reconcile_one public_id result c
  reconcile_all rest c'

unfoldable pub reconcile_pending_payments : ℕ → App Reconciliation
unfolding candidates is_stale
reconcile_pending_payments limit = do
  found ← with_session (
      gets λ s. candidates (
        take limit
          (order_by (λ row. row.updated_at) (filter (is_stale s.now) s.session.payment_sessions))))
  reconcile_all found (record { checked = length found; provisioned = 0; failed = 0; pending = 0 })

-- the sessions that `expire_payment_sessions` ends
unfoldable pub is_overdue : ℕ → PaymentSession → Bool
unfolding is_open
is_overdue now row = is_open row.status && leb row.expires_at now

unfoldable pub expire_rows : ℕ → List PaymentSession → List PaymentSession
unfolding is_overdue
expire_rows now =
    update_where (is_overdue now) (λ row. record (expired_row row) { updated_at = now })

unfoldable pub expire_payment_sessions : App ℕ
unfolding expire_rows
expire_payment_sessions = with_session do
  now ← gets (λ s. s.now)
  count ← gets (λ s. length (filter (is_overdue now) s.session.payment_sessions))
  write (λ d. record d { payment_sessions = expire_rows now d.payment_sessions })
  commit
  pure count
