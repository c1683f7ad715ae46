-- ===== src/Access/Frames.antt =====
-- services/access_service.py: what provisioning a paid session may change. It commits nothing, writes
-- customers, and of payment sessions only the access columns of the one that it is given.
use mikrotik.Mikrotik.{
  decrypt_secret, encrypt_secret, provision_hotspot_access, provision_pppoe_access,
}
use mikrotik.Prelude.{ℕ, String, Bool, true, ◌≡◌, Option, none, some, List, refl}
use mikrotik.Models.{HotspotUser, PppUser, Package, PaymentSession}
use mikrotik.World.{World, ◌>>=◌, write, modify}
use mikrotik.World.Keeps.{
  Keeps, keeps_rules, Keeps-bind, Keeps-if, Keeps-gets, Keeps-raise_if, Keeps-or_raise,
}
use mikrotik.World.Frames.{IsQuiet, quiet_rules}
use mikrotik.Crud.{next_id, new_uid, get_ppp_user_by_username, save_session, put_session}
use mikrotik.Mikrotik.Frames.{
  decrypt_secret-Keeps, encrypt_secret-Keeps, provision_hotspot_access-Keeps,
  provision_pppoe_access-Keeps,
}
use mikrotik.Access.{
  add_hotspot_user, save_hotspot_user, save_ppp_user, hotspot_user_named, new_password,
  new_credentials, known_credentials, payment_credentials, new_paid_user, ensure_paid_user,
  provision_hotspot, provision_pppoe, provision_paid_session, store_prepared,
  prepare_paid_hotspot_session,
}

-- The columns of a payment session that say which it is, and how far it is.
pub record IsSameSession (a b : PaymentSession) : Type 0 where
  pub id : b.id ≡ a.id
  pub public_id : b.public_id ≡ a.public_id
  pub status : b.status ≡ a.status

pub record IsFrame (row : PaymentSession) (P : World → Type 0) : Type 0 where
  pub quiet : IsQuiet P
  pub hotspot :
      (s : World) (l : List HotspotUser)
      → P s
      → P (record s { session = record s.session { hotspot_users = l } })
  pub ppp :
      (s : World) (l : List PppUser)
      → P s
      → P (record s { session = record s.session { ppp_users = l } })
  pub access :
      (s : World) (r : PaymentSession)
      → IsSameSession row r
      → P s
      → P (record s {
        session = record s.session {
          payment_sessions = put_session s.now r s.session.payment_sessions;
        };
      })

module _ (row : PaymentSession) {P : World → Type 0} (f : IsFrame row P) where
  next_id-Keeps : Keeps P next_id
  unfolding next_id ◌>>=◌
  next_id-Keeps = record { at = λ s h. f.quiet.drawn s _ h }

  new_uid-Keeps : Keeps P new_uid
  unfolding new_uid
  new_uid-Keeps = search (quiet_rules, f.quiet)

  new_password-Keeps : Keeps P new_password
  unfolding new_password
  new_password-Keeps = search (quiet_rules, f.quiet)

  add_hotspot_user-Keeps : (u : HotspotUser) → Keeps P (add_hotspot_user u)
  unfolding add_hotspot_user write
  add_hotspot_user-Keeps u = record { at = λ s h. f.hotspot s _ h }

  save_hotspot_user-Keeps : (u : HotspotUser) → Keeps P (save_hotspot_user u)
  unfolding save_hotspot_user write
  save_hotspot_user-Keeps u = record { at = λ s h. f.hotspot s _ h }

  save_ppp_user-Keeps : (u : PppUser) → Keeps P (save_ppp_user u)
  unfolding save_ppp_user modify
  save_ppp_user-Keeps u = record { at = λ s h. f.ppp s _ h }

  save_session-Keeps : (r : PaymentSession) → IsSameSession row r → Keeps P (save_session r)
  unfolding save_session modify
  save_session-Keeps r same = record { at = λ s h. f.access s r same h }

  hotspot_user_named-Keeps : (id : ℕ) (u : String) → Keeps P (hotspot_user_named id u)
  unfolding hotspot_user_named
  hotspot_user_named-Keeps id u = search keeps_rules

  by_username-Keeps : (id : ℕ) (u : String) → Keeps P (get_ppp_user_by_username id u)
  unfolding get_ppp_user_by_username
  by_username-Keeps id u = search keeps_rules

  decrypt-Keeps : (v : String) → Keeps P (decrypt_secret v)
  decrypt-Keeps v = decrypt_secret-Keeps f.quiet v

  encrypt-Keeps : (v : String) → Keeps P (encrypt_secret v)
  encrypt-Keeps v = encrypt_secret-Keeps f.quiet v

  hotspot_access-Keeps :
      (id : ℕ) (u w pr : String) (m : ℕ) (r n : Bool)
      → Keeps P (provision_hotspot_access id u w pr m r n)
  hotspot_access-Keeps id u w pr m r n = provision_hotspot_access-Keeps f.quiet id u w pr m r n

  pppoe_access-Keeps :
      (id : ℕ) (u w pr : String) (r n : Bool) → Keeps P (provision_pppoe_access id u w pr r n)
  pppoe_access-Keeps id u w pr r n = provision_pppoe_access-Keeps f.quiet id u w pr r n

  new_credentials-Keeps : (pkg : Package) → Keeps P (new_credentials row pkg)
  unfolding new_credentials
  new_credentials-Keeps pkg = Keeps-bind _ _ new_password-Keeps λ w.
      Keeps-bind _ _ (encrypt-Keeps w) λ e.
        search
          (
            keeps_rules,
            quiet_rules,
            λ (r : PaymentSession) (same : IsSameSession row r). save_session-Keeps r same,
          )
          depth 9

  known_credentials-Keeps : Keeps P (known_credentials row)
  unfolding known_credentials
  known_credentials-Keeps = search (keeps_rules, decrypt-Keeps)

  payment_credentials-Keeps : (pkg : Package) → Keeps P (payment_credentials row pkg)
  unfolding payment_credentials
  payment_credentials-Keeps pkg =
      Keeps-if _ _ _ (λ _. known_credentials-Keeps) (λ _. new_credentials-Keeps pkg)

  new_paid_user-Keeps :
      (r : PaymentSession) (pkg : Package) (u w : String) → Keeps P (new_paid_user r pkg u w)
  unfolding new_paid_user
  new_paid_user-Keeps r pkg u w =
      search (keeps_rules, next_id-Keeps, new_uid-Keeps, encrypt-Keeps) depth 12

  ensure_paid_user-Keeps :
      (r : PaymentSession) (pkg : Package) (u w : String) (found : Option HotspotUser)
      → Keeps P (ensure_paid_user r pkg u w found)
  unfolding ensure_paid_user
  ensure_paid_user-Keeps r pkg u w none =
      search
        (
          keeps_rules, quiet_rules, hotspot_access-Keeps, new_paid_user-Keeps,
          add_hotspot_user-Keeps,
        )
        depth 12
  ensure_paid_user-Keeps r pkg u w (some user) = search (keeps_rules, hotspot_access-Keeps) depth 9

  provision_hotspot-Keeps : (pkg : Package) → Keeps P (provision_hotspot row pkg)
  unfolding provision_hotspot
  provision_hotspot-Keeps pkg = Keeps-bind _ _ (Keeps-gets _) λ now.
      Keeps-bind _ _ (payment_credentials-Keeps pkg) λ c.
        Keeps-bind _ _ (hotspot_user_named-Keeps _ _) λ found.
          Keeps-bind _ _ (ensure_paid_user-Keeps c.2 pkg c.0 c.1 found) λ user.
            Keeps-bind _ _ (encrypt-Keeps _)
              λ e. Keeps-bind _ _ (save_hotspot_user-Keeps _) λ _. search (keeps_rules, quiet_rules)

  provision_pppoe-Keeps : (pkg : Package) → Keeps P (provision_pppoe row pkg)
  unfolding provision_pppoe
  provision_pppoe-Keeps pkg = Keeps-bind _ _ (Keeps-gets _) λ now.
      Keeps-bind _ _ (Keeps-raise_if _ _) λ _. Keeps-bind _ _ (by_username-Keeps _ _) λ found.
        Keeps-bind _ _ (Keeps-or_raise found _) λ user. Keeps-bind _ _ (decrypt-Keeps _) λ w.
          Keeps-bind _ _ (pppoe_access-Keeps _ _ w _ true true) λ _.
            Keeps-bind _ _ (save_ppp_user-Keeps _) λ _.
              Keeps-bind _ _
                (save_session-Keeps _ (record { id = refl; public_id = refl; status = refl }))
                λ _. search (keeps_rules, quiet_rules)

  -- Provisioning keeps whatever its frame allows, whether it returns or raises.
  pub provision_paid_session-Keeps : (pkg : Package) → Keeps P (provision_paid_session row pkg)
  unfolding provision_paid_session
  provision_paid_session-Keeps pkg =
      Keeps-if _ _ _ (λ _. provision_pppoe-Keeps pkg) (λ _. provision_hotspot-Keeps pkg)

  store_prepared-Keeps :
      (r : PaymentSession) (pkg : Package) (u w : String) (found : Option HotspotUser)
      → Keeps P (store_prepared r pkg u w found)
  unfolding store_prepared
  store_prepared-Keeps r pkg u w none =
      search (keeps_rules, new_paid_user-Keeps, add_hotspot_user-Keeps) depth 9
  store_prepared-Keeps r pkg u w (some user) =
      search (keeps_rules, encrypt-Keeps, save_hotspot_user-Keeps) depth 9

  -- So does the preparation before the payment.
  pub prepare_paid_hotspot_session-Keeps :
      (pkg : Package) → Keeps P (prepare_paid_hotspot_session row pkg)
  unfolding prepare_paid_hotspot_session
  prepare_paid_hotspot_session-Keeps pkg = Keeps-bind _ _ (Keeps-raise_if _ _) λ _.
      Keeps-bind _ _ (payment_credentials-Keeps pkg) λ c.
        Keeps-bind _ _ (hotspot_access-Keeps _ c.0 c.1 _ _ true true) λ _.
          Keeps-bind _ _ (hotspot_user_named-Keeps _ _) λ found.
            Keeps-bind _ _ (store_prepared-Keeps c.2 pkg c.0 c.1 found)
              λ id. search (keeps_rules, quiet_rules)
