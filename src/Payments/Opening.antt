-- ===== src/Payments/Opening.antt =====
-- services/payment_service.py: what the first transaction of a new payment lets through.
use mikrotik.Prelude.{
  String, ◌≡◌, true, Option, some, none, arith, refl, find, str_eq, mem_text, Option-cases,
  Bool-cases, inl, inr, subst, ◌∙◌,
}
use mikrotik.Models.{Db, PaymentSession, Router, Package, Status}
use mikrotik.World.Returns.{
  bind-returned, catch-returned, raise_if-returned, or_raise-returned, gets-returned,
}
use mikrotik.Crud.{get_router_by_portal_slug, get_package_by_uid}
use mikrotik.World.{World, ok, ◌>>=◌, with_session, refresh, rollback, Exn, http, integrity, fault}
use mikrotik.World.Keeps.{Yields, Yields-then, Yields-pure, Yields-bind}
use mikrotik.Payments.{
  Attempt, Opened, started, replayed, open_session, start_transaction, new_session, open_portal,
  replay_or_open, duplicate,
}

-- A session as it is opened for a request at a router.
pub record IsOpenedFor (a : Attempt) (router : Router) (pkg : Package) (row : PaymentSession)
    : Type 0 where
  pub status : row.status ≡ Status.created
  pub amount : row.amount ≡ pkg.price
  pub sold : row.package_id ≡ pkg.id
  pub place : row.router_id ≡ router.id
  pub phone : row.phone_number ≡ a.phone
  pub key : row.idempotency_key ≡ a.idempotency_key

pub new_session-Yields :
    (a : Attempt) (router : Router) (pkg : Package)
    → Yields (IsOpenedFor a router pkg) (new_session a router pkg)
unfolding new_session
new_session-Yields a router pkg = Yields-then _ _ λ id. Yields-then _ _ λ uid.
    Yields-then _ _ λ now. Yields-then _ _ λ env.
      Yields-pure _ (record {
        status = refl;
        amount = refl;
        sold = refl;
        place = refl;
        phone = refl;
        key = refl;
      })

open_session-Yields :
    (a : Attempt) (router : Router) (pkg : Package)
    → Yields (IsOpenedFor a router pkg) (open_session a router pkg)
unfolding open_session
open_session-Yields a router pkg = Yields-then _ _ λ count. Yields-then _ _ λ limit.
    Yields-then _ _ λ _. Yields-bind _ _ (new_session-Yields a router pkg) λ row h.
      Yields-then _ _ λ _. Yields-then _ _ λ _. Yields-then _ _ λ env. Yields-then _ _ λ _.
        Yields-then _ _ λ _. Yields-pure _ (record {
          status = h.status;
          amount = h.amount;
          sold = h.sold;
          place = h.place;
          phone = h.phone;
          key = h.key;
        })

-- What the transaction may end with: an earlier request's reply, or a session of this package at
-- this router.
abbrev Opens : Attempt → Router → Package → Opened → Type 0
Opens a router pkg (replayed response) = Unit
Opens a router pkg (started row) = IsOpenedFor a router pkg row

replay_or_open-Yields :
    (a : Attempt) (router : Router) (pkg : Package) (existing : Option PaymentSession)
    → Yields (Opens a router pkg) (replay_or_open a router pkg existing)
unfolding replay_or_open
replay_or_open-Yields a router pkg (some existing) = Yields-then _ _ λ response. Yields-pure _ tt
replay_or_open-Yields a router pkg none =
    Yields-bind _ _ (open_session-Yields a router pkg) λ row h. Yields-pure _ h

-- A portal that opens is a router of this address whose portal is enabled.
open_portal-returned :
    (slug : String) (s : World) (router : Router)
    → (open_portal slug s).0 ≡ ok router
    → (find (λ r. str_eq r.portal_slug slug) s.session.routers ≡ some router)
      × (router.portal_enabled ≡ true)
      × ((open_portal slug s).1 ≡ s)
unfolding open_portal get_router_by_portal_slug ◌>>=◌
open_portal-returned slug s router h =
    elim (Option-cases (find (λ r. str_eq r.portal_slug slug) s.session.routers)) [
      | inl unknown ↦ absurd (ground arith)
      | inr (row, found) ↦ elim (Bool-cases row.portal_enabled) [
        | inl enabled ↦
            elim (Bool-cases (mem_text row.payment_provider s.env.settings.payment_providers)) [
              | inl offered ↦ (ground arith, ground arith, rw (found, enabled, offered) refl)
              | inr strange ↦ absurd (ground arith)
            ]
        | inr closed ↦ absurd (ground arith)
      ]
    ]

duplicate-raises : (e : Exn) (t : World) (o : Opened) → (duplicate e t).0 ≡ ok o → ⊥
unfolding duplicate rollback ◌>>=◌
duplicate-raises integrity t o h = cc
duplicate-raises (http code detail) t o h = cc
duplicate-raises (fault message) t o h = cc

-- A session that was opened for a request at the portal `slug`: its router and its package are rows
-- of the tables.
pub record IsGuarded (slug : String) (a : Attempt) (d : Db) (row : PaymentSession) : Type 0 where
  pub router : Router
  pub pkg : Package
  pub opened : IsOpenedFor a router pkg row
  pub at_portal : find (λ r. str_eq r.portal_slug slug) d.routers ≡ some router
  pub enabled : router.portal_enabled ≡ true
  pub asked_for : find (λ p. str_eq p.uid a.body.package_uid) d.packages ≡ some pkg
  pub for_sale : pkg.is_active ≡ true
  pub sold_here : pkg.router_id ≡ router.id

-- A new payment session is opened only at a router that the tables have under the portal's address,
-- while that portal is enabled, and only for the package that they have under the request's
-- identifier, which is for sale and that router's; its price is the package's, and its phone and key
-- are the request's.
pub start_transaction-IsGuarded :
    (slug : String) (a : Attempt) (s : World) (row : PaymentSession)
    → (start_transaction slug a s).0 ≡ ok (started row)
    → IsGuarded slug a s.db row
unfolding start_transaction with_session get_package_by_uid
start_transaction-IsGuarded slug a s row h =
    let (router, opened, h1) = bind-returned _ _ (refresh s) (started row) (
      catch-returned _ duplicate (refresh s) (started row)
        (λ e t raised. duplicate-raises e t (started row) raised) h) in
    let (at_portal, enabled, still) = open_portal-returned slug (refresh s) router opened in
    let (found, looked_up, h2) = bind-returned _ _ _ (started row) h1 in
    let (pkg, present, h3) = bind-returned _ _ _ (started row) h2 in
    let (u, fits, h4) = bind-returned _ _ _ (started row) h3 in
    let (v, referenced, h5) = bind-returned _ _ _ (started row) h4 in
    let (existing, earlier, h6) = bind-returned _ _ _ (started row) h5 in
    let guarded = raise_if-returned _ _ _ u fits in
    let sold =
      subst (λ t. find (λ p. str_eq p.uid a.body.package_uid) t.session.packages ≡ some pkg) still
        (gets-returned _ _ found looked_up ∙ (or_raise-returned found _ _ pkg present).0) in
    record {
      router = router;
      pkg = pkg;
      opened = (replay_or_open-Yields a router pkg existing).at _ (started row) h6;
      at_portal = at_portal;
      enabled = enabled;
      asked_for = sold;
      for_sale = ground (arith, guarded);
      sold_here = ground (arith, guarded);
    }
