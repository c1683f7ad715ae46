-- ===== src/Routers/Legacy.antt =====
-- services/router_service.py: credentials from before encryption, and the adapters of old modules.
use mikrotik.Prelude.{
  ℕ, ◌+◌, String, Bool, true, false, not, ◌&&◌, Option, none, some, List, [], ◌∷◌, truthy, is_some,
  any, length, filter, ◌==◌, if◌then◌else◌,
}
use mikrotik.Models.{Router, PppUser}
use mikrotik.World.{App, Env, pure, gets, modify, commit, with_session, ◌>>=◌, ◌>>◌}
use mikrotik.Crud.{get_routers}
use mikrotik.Mikrotik.{router_status}
use mikrotik.Routers.Checks.{is_online}

-- `is_encrypted` of security.py
unfoldable pub is_encrypted : Env → String → Bool
is_encrypted env value = truthy value && is_some (env.fernet_decrypt value)

-- the credential is text that no key has encrypted
unfoldable pub is_plain : Env → String → Bool
unfolding is_encrypted
is_plain env value = truthy value && not (is_encrypted env value)

unfoldable pub sealed : Env → String → String
unfolding is_plain
sealed env value = if is_plain env value then env.fernet_encrypt value else value

unfoldable pub seal_routers : Env → ℕ → List Router → List Router
unfolding sealed
seal_routers env now [] = []
seal_routers env now (row ∷ rows) =
    (if is_plain env row.password
      then record row { password = sealed env row.password; updated_at = now }
      else row)
    ∷ seal_routers env now rows

unfoldable pub seal_customers : Env → ℕ → List PppUser → List PppUser
unfolding sealed
seal_customers env now [] = []
seal_customers env now (row ∷ rows) =
    (if is_plain env row.pppoe_password
      then record row { pppoe_password = sealed env row.pppoe_password; updated_at = now }
      else row)
    ∷ seal_customers env now rows

-- `converted`, at the end of the two loops
unfoldable pub plain_count : Env → List Router → List PppUser → ℕ
plain_count env routers customers =
    length (filter (λ r. is_plain env r.password) routers)
    + length (filter (λ c. is_plain env c.pppoe_password) customers)

unfoldable pub encrypt_legacy_credentials : App ℕ
unfolding seal_routers seal_customers plain_count
encrypt_legacy_credentials = with_session do
  env ← gets (λ s. s.env)
  now ← gets (λ s. s.now)
  converted ← gets (λ s. plain_count env s.session.routers s.session.ppp_users)
  modify (λ s. record s {
    session = record s.session {
      routers = seal_routers env now s.session.routers;
      ppp_users = seal_customers env now s.session.ppp_users;
    };
  })
  if converted == 0 then pure converted else do commit; pure converted

-- `row.id in allowed`
abbrev pub is_allowed : Option (List ℕ) → ℕ → Bool
is_allowed none id = true
is_allowed (some allowed) id = any (λ x. x == id) allowed

abbrev pub is_asked : Option ℕ → ℕ → Bool
is_asked none id = true
is_asked (some asked) id = asked == id

pub record Ping : Type 0 where
  pub id : ℕ
  pub name : String
  pub online : Bool

unfoldable pub ping_each : List Router → App (List Ping)
ping_each [] = pure []
ping_each (row ∷ rows) = do
  status ← router_status row
  rest ← ping_each rows
  pure (record { id = row.id; name = row.name; online = is_online status } ∷ rest)

pub record PingReport : Type 0 where
  pub total : ℕ
  pub online : ℕ
  pub offline : ℕ
  pub routers : List Ping

unfoldable pub ping_routers : Option ℕ → Option (List ℕ) → App PingReport
unfolding ping_each
ping_routers router_id allowed_ids = do
  rows ← with_session (get_routers none false)
  let asked : List Router =
      filter (λ row. is_allowed allowed_ids row.id && is_asked router_id row.id) rows
  results ← ping_each asked
  pure (record {
    total = length results;
    online = length (filter (λ r. r.online) results);
    offline = length (filter (λ r. not r.online) results);
    routers = results;
  })
