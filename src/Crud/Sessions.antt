-- ===== src/Crud/Sessions.antt =====
-- database/crud.py: payment sessions. A changed row gets its new `updated_at` when it is flushed
-- (`onupdate` of database/models.py), and SQLAlchemy writes no row that has not changed.
use mikrotik.Prelude.{
  ℕ, ◌+◌, ◌*◌, String, Bool, true, false, ◌&&◌, Option, none, some, List, [], ◌∷◌, str_eq, opt_eq,
  same_text, truthy?, ◌==◌, leb, length, take, filter, find, order_by_desc, if◌then◌else◌,
}
use mikrotik.Models.{PaymentSession, Status}
use mikrotik.World.{App, gets, modify}

unfoldable pub recent_payment_session_count : String → Option String → ℕ → App ℕ
recent_payment_session_count phone_hash client_ip_hash minutes = gets λ s. length (
    filter
      (λ row.
        leb s.now (row.created_at + minutes * 60)
        && str_eq row.phone_hash phone_hash
        && (if truthy? client_ip_hash then same_text row.client_ip_hash client_ip_hash else true))
      s.session.payment_sessions)

abbrev pub lookup_session : String → List PaymentSession → Option PaymentSession
lookup_session public_id = find (λ row. str_eq row.public_id public_id)

unfoldable pub get_payment_session_by_public_id : String → App (Option PaymentSession)
get_payment_session_by_public_id public_id =
    gets (λ s. lookup_session public_id s.session.payment_sessions)

unfoldable pub get_payment_session_by_provider_id : String → App (Option PaymentSession)
get_payment_session_by_provider_id provider_request_id =
    gets λ s.
      find (λ row. opt_eq row.provider_request_id provider_request_id) s.session.payment_sessions

unfoldable pub get_payment_session_by_idempotency : ℕ → String → App (Option PaymentSession)
get_payment_session_by_idempotency router_id idempotency_key = gets λ s.
    find (λ row. row.router_id == router_id && str_eq row.idempotency_key idempotency_key)
      s.session.payment_sessions

unfoldable pub get_payment_sessions : ℕ → ℕ → App (List PaymentSession)
get_payment_sessions router_id limit = gets λ s. take limit (
    order_by_desc (λ row. row.created_at)
      (filter (λ row. row.router_id == router_id) s.session.payment_sessions))

abbrev pub same_status : Status → Status → Bool
same_status Status.created Status.created = true
same_status Status.pending Status.pending = true
same_status Status.paid Status.paid = true
same_status Status.provisioning Status.provisioning = true
same_status Status.provisioned Status.provisioned = true
same_status Status.provisioning_failed Status.provisioning_failed = true
same_status Status.manual_review Status.manual_review = true
same_status Status.failed Status.failed = true
same_status _ _ = false

unfoldable pub same_number : Option ℕ → Option ℕ → Bool
same_number none none = true
same_number (some a) (some b) = a == b
same_number _ _ = false

-- Whether the columns that the services assign have the values that they had.
unfoldable pub unchanged : PaymentSession → PaymentSession → Bool
unfolding same_number
unchanged a b =
    same_status a.status b.status
    && same_text a.result_code b.result_code
    && same_text a.result_description b.result_description
    && same_text a.provider_request_id b.provider_request_id
    && same_text a.provider_receipt b.provider_receipt
    && str_eq a.access_token_hash b.access_token_hash
    && same_text a.access_username b.access_username
    && same_text a.access_password_encrypted b.access_password_encrypted
    && same_number a.credentials_expires_at b.credentials_expires_at

-- `updated_at` of the written row, if the code does not assign it
unfoldable pub touch : ℕ → PaymentSession → PaymentSession → PaymentSession
touch now old row = if unchanged old row then row else record row { updated_at = now }

unfoldable pub put_session : ℕ → PaymentSession → List PaymentSession → List PaymentSession
put_session now row [] = []
put_session now row (old ∷ rest) =
    (if old.id == row.id then touch now old row else old) ∷ put_session now row rest

-- Attributes of a loaded row are assigned: the row of its primary key is replaced.
unfoldable pub save_session : PaymentSession → App (Unit {0})
unfolding put_session
save_session row = modify λ s.
    let sessions : List PaymentSession = put_session s.now row s.session.payment_sessions in
    record s { session = record s.session { payment_sessions = sessions } }
