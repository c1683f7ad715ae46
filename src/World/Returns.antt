-- ===== src/World/Returns.antt =====
-- What is known of the parts of an action that returned.
use mikrotik.Prelude.{◌≡◌, refl, Bool, true, false, Option, none, some, arith, Bool-cases, inl, inr}
use mikrotik.Models.{constraints_hold}
use mikrotik.World.{
  World, App, Exn, Result, ok, err, ◌>>=◌, continue, recover, catch, raise_if, or_raise, gets,
  commit, flush, pure,
}

module _ {A B : Type 0} where
  continued :
      (outcome : Result A) (after : World) (next : A → App B) (b : B)
      → (continue (outcome, after) next).0 ≡ ok b
      → (a : A) × (outcome ≡ ok a) × ((next a after).0 ≡ ok b)
  continued (ok a) after next b h = (a, refl, h)
  continued (err e) after next b h = cc

  -- A bind returned: so did its first action, and the rest from where that ended.
  pub bind-returned :
      (first : App A) (next : A → App B) (s : World) (b : B)
      → ((first >>= next) s).0 ≡ ok b
      → (a : A) × ((first s).0 ≡ ok a) × ((next a (first s).1).0 ≡ ok b)
  unfolding ◌>>=◌
  bind-returned first next s b h = continued (first s).0 (first s).1 next b h

module _ {A : Type 0} where
  recovered :
      (outcome : Result A) (after : World) (handler : Exn → App A) (a : A)
      → ((e : Exn) (t : World) → (handler e t).0 ≡ ok a → ⊥)
      → (recover (outcome, after) handler).0 ≡ ok a
      → outcome ≡ ok a
  recovered (ok b) after handler a never h = h
  recovered (err e) after handler a never h = absurd (never e after h)

  -- The handler never returns, so that the body did.
  pub catch-returned :
      (body : App A) (handler : Exn → App A) (s : World) (a : A)
      → ((e : Exn) (t : World) → (handler e t).0 ≡ ok a → ⊥)
      → (catch body handler s).0 ≡ ok a
      → (body s).0 ≡ ok a
  unfolding catch
  catch-returned body handler s a never h = recovered (body s).0 (body s).1 handler a never h

pub raise_if-returned :
    (test : Bool) (e : Exn) (s : World) (u : Unit {0}) → (raise_if test e s).0 ≡ ok u → test ≡ false
unfolding raise_if
raise_if-returned true e s u h = cc
raise_if-returned false e s u h = refl

pub or_raise-returned :
    {A : Type 0} (found : Option A) (e : Exn) (s : World) (a : A)
    → (or_raise found e s).0 ≡ ok a
    → (found ≡ some a) × ((or_raise found e s).1 ≡ s)
unfolding or_raise
or_raise-returned none e s a h = cc
or_raise-returned (some b) e s a h = (cc, refl)

pub gets-returned :
    {A : Type 0} (read : World → A) (s : World) (a : A) → (gets read s).0 ≡ ok a → read s ≡ a
unfolding gets
gets-returned read s a h = cc

-- A commit that returned has published the working copy.
pub commit-returned :
    {A : Type 0} (result : A) (s : World) (a : A)
    → ((commit >>= λ _. pure result) s).0 ≡ ok a
    → ((commit >>= λ _. pure result) s).1.db ≡ s.session
unfolding commit flush ◌>>=◌
commit-returned result s a h = elim (Bool-cases (constraints_hold s.session)) [
  | inl fits ↦ rw fits refl
  | inr clashes ↦ absurd (ground (arith, h, clashes))
]
