-- ===== src/Models/Tables.antt =====
-- database/models.py: the tables, and the uniqueness that the columns declare.
use mikrotik.Prelude.{String, Bool, false, ◌&&◌, Option, none, some, List, ◌==◌, distinct, str_eq}
use mikrotik.Models.Accounts.{AdminUser, Router}
use mikrotik.Models.Access.{Package, HotspotUser, PppUser}
use mikrotik.Models.Billing.{PaymentSession, Payment, Log}

pub record Db : Type 0 where
  pub admin_users : List AdminUser
  pub routers : List Router
  pub packages : List Package
  pub hotspot_users : List HotspotUser
  pub ppp_users : List PppUser
  pub payment_sessions : List PaymentSession
  pub payments : List Payment
  pub logs : List Log

-- Two NULLs do not clash in a unique column.
abbrev pub clash : Option String → Option String → Bool
clash none b = false
clash (some a) none = false
clash (some a) (some b) = str_eq a b

pub unique_sessions : List PaymentSession → Bool
unique_sessions rows =
    distinct (λ a b. str_eq a.public_id b.public_id) rows
    && distinct (λ a b. clash a.provider_request_id b.provider_request_id) rows
    && distinct (λ a b. clash a.provider_receipt b.provider_receipt) rows
    && distinct (λ a b. a.router_id == b.router_id && str_eq a.idempotency_key b.idempotency_key)
        rows

pub unique_payments : List Payment → Bool
unique_payments rows =
    distinct (λ a b. str_eq a.uid b.uid) rows
    && distinct (λ a b. str_eq a.invoice b.invoice) rows
    && distinct (λ a b. clash a.provider_receipt b.provider_receipt) rows

pub unique_accounts : List AdminUser → List Router → Bool
unique_accounts users routers =
    distinct (λ a b. str_eq a.username b.username) users
    && distinct (λ a b. clash a.email b.email) users
    && distinct (λ a b. str_eq a.uid b.uid) routers
    && distinct (λ a b. str_eq a.portal_slug b.portal_slug) routers

pub unique_access : List Package → List HotspotUser → List PppUser → Bool
unique_access packages hotspot_users ppp_users =
    distinct (λ a b. str_eq a.uid b.uid) packages
    && distinct (λ a b. a.router_id == b.router_id && str_eq a.name b.name) packages
    && distinct (λ a b. str_eq a.uid b.uid) hotspot_users
    && distinct (λ a b. a.router_id == b.router_id && str_eq a.otp b.otp) hotspot_users
    && distinct (λ a b. str_eq a.uid b.uid) ppp_users
    && distinct (λ a b. a.router_id == b.router_id && str_eq a.pppoe_username b.pppoe_username)
        ppp_users

-- What a flush checks: every unique column and `UniqueConstraint` of the schema.
unfoldable pub constraints_hold : Db → Bool
unfolding unique_sessions unique_payments unique_accounts unique_access
constraints_hold d =
    unique_accounts d.admin_users d.routers
    && unique_access d.packages d.hotspot_users d.ppp_users
    && unique_sessions d.payment_sessions
    && unique_payments d.payments
