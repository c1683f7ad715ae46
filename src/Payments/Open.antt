-- ===== src/Payments/Open.antt =====
-- services/payment_service.py: the first transaction of a new payment.
use mikrotik.Prelude.{
  ℕ, ◌+◌, ◌*◌, String, Bool, true, not, ◌&&◌, ◌||◌, Option, none, some, [], ◌∷◌, ◌++◌, str_eq,
  same_text, truthy, truthy?, or_text, ◌==◌, leb, length, filter, if◌then◌else◌,
}
use mikrotik.Models.{PaymentSession, Package, Router, Status}
use mikrotik.World.{
  App, Env, Exn, http, integrity, fault, pure, raise, gets, or_raise, raise_if, write, catch, flush,
  commit, rollback, with_session, ◌>>=◌, ◌>>◌,
}
use mikrotik.Crud.{
  next_id, new_uid, get_package_by_uid, get_payment_session_by_idempotency, save_session,
}
use mikrotik.Access.{not_hotspot}
use mikrotik.Payments.Respond.{PublicResponse, public_response, payment_access_token, open_portal}

-- `PublicPaymentRequest` of schemas.py
pub record PublicPaymentRequest : Type 0 where
  pub package_uid : String
  pub phone_number : String
  pub customer_reference : Option String

unfoldable pub fingerprint : Env → String → String → Option String → String
fingerprint env package_uid phone customer_reference = env.sha256 (
    env.json_dumps (
      ("package_uid", package_uid)
      ∷ ("phone", phone)
      ∷ ("customer_reference", or_text customer_reference "")
      ∷ []))

-- the rows that the rate limit counts
unfoldable pub is_recent_attempt : ℕ → ℕ → String → Option String → PaymentSession → Bool
is_recent_attempt now minutes phone_hash client_ip_hash row =
    leb now (row.created_at + minutes * 60)
    && (str_eq row.phone_hash phone_hash
        || (truthy? client_ip_hash && same_text row.client_ip_hash client_ip_hash))

unfoldable pub recent_attempts : String → Option String → App ℕ
unfolding is_recent_attempt
recent_attempts phone_hash client_ip_hash = gets λ s. length (
    filter
      (is_recent_attempt s.now s.env.settings.public_payment_window_minutes phone_hash
        client_ip_hash)
      s.session.payment_sessions)

-- A request with the values that the service derives from it.
pub record Attempt : Type 0 where
  pub body : PublicPaymentRequest
  pub idempotency_key : String
  pub phone : String
  pub phone_hash : String
  pub client_ip_hash : Option String
  pub fingerprint : String

-- `if existing:` of the first transaction
unfoldable pub replay : Attempt → PaymentSession → App PublicResponse
replay a existing = do
  raise_if (not (str_eq existing.request_fingerprint a.fingerprint))
      (http 409 "Idempotency key was already used for another request")
  public_response existing true

-- `a or b`
abbrev pub provider_or : String → String → String
provider_or a b = if truthy a then a else b

unfoldable pub new_session : Attempt → Router → Package → App PaymentSession
new_session a router pkg = do
  id ← next_id
  uid ← new_uid
  now ← gets (λ s. s.now)
  env ← gets (λ s. s.env)
  pure (record {
    id = id;
    public_id = uid;
    access_token_hash = "pending";
    idempotency_key = a.idempotency_key;
    request_fingerprint = a.fingerprint;
    provider = provider_or router.payment_provider env.settings.payment_provider;
    provider_request_id = none;
    provider_receipt = none;
    status = Status.created;
    result_code = none;
    result_description = none;
    phone_number = a.phone;
    phone_hash = a.phone_hash;
    amount = pkg.price;
    currency = "KES";
    service_type = pkg.service_type;
    customer_reference = a.body.customer_reference;
    client_ip_hash = a.client_ip_hash;
    router_id = router.id;
    package_id = pkg.id;
    access_username = none;
    access_password_encrypted = none;
    credentials_expires_at = none;
    created_at = now;
    updated_at = now;
    expires_at = now + env.settings.payment_session_minutes * 60;
  })

-- the insertion, after every guard
unfoldable pub open_session : Attempt → Router → Package → App PaymentSession
unfolding new_session recent_attempts
open_session a router pkg = do
  count ← recent_attempts a.phone_hash a.client_ip_hash
  limit ← gets (λ s. s.env.settings.public_payment_limit)
  raise_if (leb limit count) (http 429 "Too many payment attempts. Try again shortly")
  row ← new_session a router pkg
  write (λ d. record d { payment_sessions = d.payment_sessions ++ row ∷ [] })
  flush
  env ← gets (λ s. s.env)
  let row' : PaymentSession = record row {
    access_token_hash = env.sha256 (payment_access_token env row.public_id);
  }
  save_session row'
  commit
  pure row'

-- What the first transaction ends with: a reply to an earlier request, or a new session.
pub data Opened : Type 0 where
  replayed : PublicResponse → Opened
  started : PaymentSession → Opened

unfoldable pub replay_or_open : Attempt → Router → Package → Option PaymentSession → App Opened
unfolding replay open_session
replay_or_open a router pkg (some existing) = do
  response ← replay a existing
  pure (replayed response)
replay_or_open a router pkg none = do row ← open_session a router pkg; pure (started row)

unfoldable pub duplicate : Exn → App Opened
duplicate integrity = do rollback; raise (http 409 "Duplicate payment request")
duplicate (http code detail) = raise (http code detail)
duplicate (fault message) = raise (fault message)

unfoldable pub start_transaction : String → Attempt → App Opened
unfolding replay_or_open duplicate
start_transaction portal_slug a = with_session (
    catch
      (do
        router ← open_portal portal_slug
        found ← get_package_by_uid a.body.package_uid
        pkg ← or_raise found (http 404 "Package not found")
        raise_if (not (pkg.router_id == router.id) || not pkg.is_active)
            (http 404 "Package not found")
        raise_if (not_hotspot pkg.service_type && not (truthy? a.body.customer_reference))
            (http 422 "PPPoE account reference is required")
        existing ← get_payment_session_by_idempotency router.id a.idempotency_key
        replay_or_open a router pkg existing)
      duplicate)
