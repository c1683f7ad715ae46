-- ===== src/Agent/Replay.antt =====
-- vpn_agent/agent.py: `NonceCache` accepts a request at most once.
use mikrotik.Prelude.{
  ℕ, ◌+◌, ◌≤◌, ◌&&◌, String, All, ◌≡◌, ◌≢◌, true, List, [], ◌∷◌, arith, str_eq, eq_iff, filter, any,
  leb, ltb, ◌<◌, Bool-cases, inl, inr,
}
use mikrotik.Agent.Store.{done}
use mikrotik.Agent.Nonces.{Nonces, is_recent, has_nonce, consume}

-- The cache remembers this request.
abbrev pub Remembers : String → ℕ → Nonces → Type 0
Remembers nonce timestamp values = any (λ e. str_eq e.0 nonce && leb timestamp e.1) values ≡ true

-- An entry as recent as the request is kept while the request would be accepted.
filter-Remembers :
    (now : ℕ) (nonce : String) (timestamp : ℕ) (values : Nonces)
    → now ≤ timestamp + 60
    → Remembers nonce timestamp values
    → Remembers nonce timestamp (filter (is_recent now) values)
filter-Remembers now nonce timestamp [] h r = r
filter-Remembers now nonce timestamp ((k, v) ∷ values) h r =
    ground (arith, filter-Remembers now nonce timestamp values h)

-- Whatever is consumed while the request is in its window, the cache goes on remembering it.
consume-Remembers :
    (now : ℕ) (values : Nonces) (other : String) (t : ℕ) (nonce : String) (timestamp : ℕ)
    → now ≤ timestamp + 60
    → Remembers nonce timestamp values
    → Remembers nonce timestamp (consume now values other t).0
unfolding consume
consume-Remembers now values other t nonce timestamp h r =
    ground (arith, filter-Remembers now nonce timestamp values h r)

-- An accepted request is remembered.
accepted-Remembers :
    (now : ℕ) (values : Nonces) (nonce : String) (timestamp : ℕ)
    → (consume now values nonce timestamp).1 ≡ done tt
    → Remembers nonce timestamp (consume now values nonce timestamp).0
unfolding consume
accepted-Remembers now values nonce timestamp h = ground (arith, eq_iff nonce nonce)

-- What is remembered is in the cache.
has_nonce-Remembers :
    (nonce : String) (timestamp : ℕ) (values : Nonces)
    → Remembers nonce timestamp values
    → has_nonce nonce values ≡ true
has_nonce-Remembers nonce timestamp [] r = r
has_nonce-Remembers nonce timestamp (e ∷ values) r =
    ground (arith, has_nonce-Remembers nonce timestamp values)

-- A remembered request is rejected.
remembered_rejected :
    (now : ℕ) (values : Nonces) (nonce : String) (timestamp : ℕ)
    → Remembers nonce timestamp values
    → (consume now values nonce timestamp).1 ≢ done tt
unfolding consume
remembered_rejected now values nonce timestamp r = ground (
  arith,
  filter-Remembers now nonce timestamp values,
  has_nonce-Remembers nonce timestamp (filter (is_recent now) values),
)

-- A call of `consume`: the time of the call, the nonce and the timestamp.
abbrev pub Consumption : Type 0
Consumption = ℕ × String × ℕ

abbrev pub consume_all : Nonces → List Consumption → Nonces
consume_all values [] = values
consume_all values ((now, nonce, timestamp) ∷ rest) =
    consume_all (consume now values nonce timestamp).0 rest

consume_all-Remembers :
    (values : Nonces) (calls : List Consumption) (now : ℕ) (nonce : String) (timestamp : ℕ)
    → now ≤ timestamp + 60
    → All (λ (c : Consumption). c.0 ≤ now) calls
    → Remembers nonce timestamp values
    → Remembers nonce timestamp (consume_all values calls)
consume_all-Remembers values [] now nonce timestamp h order r = r
consume_all-Remembers values ((at, other, t) ∷ calls) now nonce timestamp h order r =
    consume_all-Remembers (consume at values other t).0 calls now nonce timestamp h order.1
      (consume-Remembers at values other t nonce timestamp (omega (arith, order.0)) r)

late_rejected :
    (now : ℕ) (values : Nonces) (nonce : String) (timestamp : ℕ)
    → timestamp + 60 < now
    → (consume now values nonce timestamp).1 ≢ done tt
unfolding consume
late_rejected now values nonce timestamp h = ground arith

-- A request that the agent has accepted is not accepted again: not after any further requests, at
-- any time that is not earlier than theirs, whatever the cache held before.
pub accepted_once :
    (values : Nonces) (before : ℕ) (nonce : String) (timestamp : ℕ) (calls : List Consumption)
    (now : ℕ)
    → (consume before values nonce timestamp).1 ≡ done tt
    → All (λ (c : Consumption). c.0 ≤ now) calls
    → (consume now (consume_all (consume before values nonce timestamp).0 calls) nonce timestamp).1
      ≢ done tt
accepted_once values before nonce timestamp calls now accepted order =
    elim (Bool-cases (ltb (timestamp + 60) now)) [
      | inl late ↦ late_rejected now _ nonce timestamp (ground arith)
      | inr early ↦ remembered_rejected now _ nonce timestamp (
          consume_all-Remembers _ calls now nonce timestamp (ground arith) order
            (accepted-Remembers before values nonce timestamp accepted))
    ]
