-- ===== src/Access/Same.antt =====
-- services/access_service.py: the payment session that provisioning hands back is the one that it was
-- given, but for its access columns.
use mikrotik.Prelude.{refl, ◌≡◌}
use mikrotik.Models.{Package, PaymentSession}
use mikrotik.World.Keeps.{Yields, Yields-pure, Yields-if, Yields-bind, Yields-then}
use mikrotik.Access.{
  Credentials, Provisioned, new_credentials, known_credentials, payment_credentials,
  provision_hotspot, provision_pppoe, provision_paid_session,
}

-- The session `row`, in every column but those of the access: its name, its password and their end.
abbrev pub IsSameBut : PaymentSession → PaymentSession → Type 0
IsSameBut row given =
    record given {
      access_username = row.access_username;
      access_password_encrypted = row.access_password_encrypted;
      credentials_expires_at = row.credentials_expires_at;
    }
    ≡ row

abbrev KeepsSession : PaymentSession → Credentials → Type 0
KeepsSession row c = IsSameBut row c.2

abbrev pub Hands : PaymentSession → Provisioned → Type 0
Hands row p = IsSameBut row p.2

module _ (row : PaymentSession) (pkg : Package) where
  new_credentials-Yields : Yields (KeepsSession row) (new_credentials row pkg)
  unfolding new_credentials
  new_credentials-Yields = Yields-then _ _ λ w.
      Yields-then _ _
        λ e. Yields-then _ _ λ now. Yields-then _ _ λ _. Yields-then _ _ λ _. Yields-pure _ refl

  known_credentials-Yields : Yields (KeepsSession row) (known_credentials row)
  unfolding known_credentials
  known_credentials-Yields = Yields-then _ _ λ w. Yields-pure _ refl

  payment_credentials-Yields : Yields (KeepsSession row) (payment_credentials row pkg)
  unfolding payment_credentials
  payment_credentials-Yields = Yields-if _ _ _ known_credentials-Yields new_credentials-Yields

  provision_hotspot-Yields : Yields (Hands row) (provision_hotspot row pkg)
  unfolding provision_hotspot
  provision_hotspot-Yields = Yields-then _ _ λ now.
      Yields-bind _ _ payment_credentials-Yields λ c same. Yields-then _ _ λ found.
        Yields-then _ _
          λ user. Yields-then _ _ λ e. Yields-then _ _ λ _. Yields-then _ _ λ _. Yields-pure _ same

  provision_pppoe-Yields : Yields (Hands row) (provision_pppoe row pkg)
  unfolding provision_pppoe
  provision_pppoe-Yields = Yields-then _ _ λ now. Yields-then _ _ λ _. Yields-then _ _ λ found.
      Yields-then _ _ λ user. Yields-then _ _ λ w.
        Yields-then _ _
          λ _. Yields-then _ _ λ _. Yields-then _ _ λ _. Yields-then _ _ λ _. Yields-pure _ refl

  -- When provisioning returns, it hands back the payment session that it was given, the same in every
  -- column but the name and the password of the access and the time until which they are shown.
  pub provision_paid_session-Yields : Yields (Hands row) (provision_paid_session row pkg)
  unfolding provision_paid_session
  provision_paid_session-Yields = Yields-if _ _ _ provision_pppoe-Yields provision_hotspot-Yields
