-- ===== src/Onboarding/Views.antt =====
-- services/onboarding_service.py: a router as its operator sees it.
use mikrotik.Prelude.{
  ℕ, String, Bool, Option, none, some, List, [], ◌∷◌, truthy, find, ◌==◌, if◌then◌else◌,
}
use mikrotik.Models.{AdminUser, Router, ConnectionMode, OnboardingStatus}
use mikrotik.World.{Env}
use mikrotik.Onboarding.Texts.{texts}

-- `router.owner.username if router.owner else None`
unfoldable pub portal_identity : List AdminUser → Router → Option String
portal_identity users router = elim router.owner_id [
  | none ↦ none
  | some id ↦ elim (find (λ u. u.id == id) users) [ none ↦ none | some owner ↦ some owner.username ]
]

unfoldable pub portal_path : Env → Option String → String → String
portal_path env none slug = texts ("/portal/" ∷ env.url_quote slug ∷ [])
portal_path env (some identity) slug =
    if truthy identity
    then texts ("/portal/" ∷ env.url_quote identity ∷ "/" ∷ env.url_quote slug ∷ [])
    else texts ("/portal/" ∷ env.url_quote slug ∷ [])

pub record RouterView : Type 0 where
  pub uid : String
  pub name : String
  pub ip_address : String
  pub port : ℕ
  pub username : String
  pub isp_identifier : Option String
  pub portal_slug : String
  pub portal_path : String
  pub portal_enabled : Bool
  pub payment_provider : String
  pub connection_mode : ConnectionMode
  pub onboarding_status : OnboardingStatus
  pub last_seen_at : Option ℕ
  pub last_error : Option String
  pub routeros_version : Option String
  pub created_at : ℕ
  pub updated_at : ℕ

unfoldable pub serialize_router : Env → List AdminUser → Router → RouterView
unfolding portal_identity portal_path
serialize_router env users router = record {
  uid = router.uid;
  name = router.name;
  ip_address = router.ip_address;
  port = router.port;
  username = router.username;
  isp_identifier = portal_identity users router;
  portal_slug = router.portal_slug;
  portal_path = portal_path env (portal_identity users router) router.portal_slug;
  portal_enabled = router.portal_enabled;
  payment_provider = router.payment_provider;
  connection_mode = router.connection_mode;
  onboarding_status = router.onboarding_status;
  last_seen_at = router.last_seen_at;
  last_error = router.last_error;
  routeros_version = router.routeros_version;
  created_at = router.created_at;
  updated_at = router.updated_at;
}
