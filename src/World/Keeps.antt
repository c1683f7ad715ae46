-- ===== src/World/Keeps.antt =====
-- Invariants of actions, one rule for each way to build an action.
use mikrotik.Prelude.{◌≡◌, refl, Bool, true, false, Option, none, some, if◌then◌else◌, subst}
use mikrotik.World.{
  World, App, Exn, Result, ok, err, pure, raise, gets, lift, or_raise, ◌>>=◌, raise_if, catch,
  attempt, continue, recover, with_session, refresh,
}

-- Whatever becomes of an action that starts in a world with `P`, it leaves one.
pub record Keeps {A : Type 0} (P : World → Type 0) (action : App A) : Type 0 where
  pub at : (before : World) → P before → P (action before).1

-- An action that leaves the world alone.
unmoved :
    {A : Type 0} {P : World → Type 0} (action : App A)
    → ((w : World) → w ≡ (action w).1)
    → Keeps P action
unmoved {P = P} action still = record { at = λ before held. subst P (still before) held }

module _ {P : World → Type 0} where
  pub Keeps-raise_if : (test : Bool) (e : Exn) → Keeps P (raise_if test e)
  unfolding raise_if
  Keeps-raise_if test e = unmoved _ λ w. refl

module _ {P : World → Type 0} {X : Type 0} where
  pub Keeps-or_raise : (found : Option X) (e : Exn) → Keeps P (or_raise found e)
  unfolding or_raise
  Keeps-or_raise none e = unmoved _ λ w. refl
  Keeps-or_raise (some x) e = unmoved _ λ w. refl

  pub Keeps-gets : (read : World → X) → Keeps P (gets read)
  unfolding gets
  Keeps-gets read = unmoved _ λ w. refl

  pub Keeps-pure : (x : X) → Keeps P (pure x)
  unfolding pure
  Keeps-pure x = unmoved _ λ w. refl

  pub Keeps-lift : (outcome : Result X) → Keeps P (lift outcome)
  unfolding lift
  Keeps-lift outcome = unmoved _ λ w. refl

  pub Keeps-raise : (e : Exn) → Keeps P (raise {A = X} e)
  unfolding raise
  Keeps-raise e = unmoved _ λ w. refl

  -- Each branch may use what the test gave.
  pub Keeps-if :
      (test : Bool) (yes_branch no_branch : App X)
      → (test ≡ true → Keeps P yes_branch)
      → (test ≡ false → Keeps P no_branch)
      → Keeps P (if test then yes_branch else no_branch)
  Keeps-if false yes_branch no_branch keeps_yes keeps_no = keeps_no refl
  Keeps-if true yes_branch no_branch keeps_yes keeps_no = keeps_yes refl

  handled :
      (outcome : Result X) (after : World) (handler : Exn → App X)
      → P after
      → ((e : Exn) → Keeps P (handler e))
      → P (recover (outcome, after) handler).1
  handled (err e) after handler held keeps_handler = (keeps_handler e).at after held
  handled (ok x) after handler held keeps_handler = held

  pub Keeps-catch :
      (body : App X) (handler : Exn → App X)
      → Keeps P body
      → ((e : Exn) → Keeps P (handler e))
      → Keeps P (catch body handler)
  unfolding catch
  Keeps-catch body handler keeps_body keeps_handler = record {
    at = λ before held.
        let (outcome, after) = body before in
        handled outcome after handler (keeps_body.at before held) keeps_handler;
  }

  pub Keeps-attempt : (body : App X) → Keeps P body → Keeps P (attempt body)
  unfolding attempt
  Keeps-attempt body keeps_body = record { at = λ before held. keeps_body.at before held }

module _ {X Y : Type 0} {P : World → Type 0} where
  followed :
      (outcome : Result X) (after : World) (next : X → App Y)
      → P after
      → ((x : X) → Keeps P (next x))
      → P (continue (outcome, after) next).1
  followed (err e) after next held keeps_next = held
  followed (ok x) after next held keeps_next = (keeps_next x).at after held

  pub Keeps-bind :
      (first : App X) (next : X → App Y)
      → Keeps P first
      → ((x : X) → Keeps P (next x))
      → Keeps P (first >>= next)
  unfolding ◌>>=◌
  Keeps-bind first next keeps_first keeps_next = record {
    at = λ before held.
        let (outcome, after) = first before in
        followed outcome after next (keeps_first.at before held) keeps_next;
  }

-- The rest of an action may keep less than its beginning.
pub Keeps-then :
    {X Y : Type 0} {P Q : World → Type 0} (first : App X) (next : X → App Y)
    → Keeps P first
    → ((s : World) → P s → Q s)
    → ((x : X) → Keeps Q (next x))
    → (s : World) → P s
    → Q ((first >>= next) s).1
unfolding ◌>>=◌
Keeps-then first next keeps_first weaker keeps_next s held =
    let (outcome, after) = first s in
    followed outcome after next (weaker after (keeps_first.at s held)) keeps_next

pub ruleset keeps_rules = (
  Keeps-bind, Keeps-if, Keeps-gets, Keeps-pure, Keeps-raise_if, Keeps-or_raise, Keeps-raise,
  Keeps-catch, Keeps-attempt, Keeps-lift,
)

-- What `m` returns, when it returns, satisfies `Q`.
pub record Yields {A : Type 0} (Q : A → Type 0) (m : App A) : Type 0 where
  pub at : (s : World) (a : A) → (m s).0 ≡ ok a → Q a

module _ {A : Type 0} {Q : A → Type 0} where
  pub Yields-pure : (a : A) → Q a → Yields Q (pure a)
  unfolding pure
  Yields-pure a q = record { at = λ s b e. subst (λ r. in_ok r) e q }
    where
      in_ok : Result A → Type 0
      in_ok (ok b) = Q b
      in_ok (err e) = Unit

  pub Yields-if : (b : Bool) (m n : App A) → Yields Q m → Yields Q n → Yields Q (if b then m else n)
  Yields-if true m n ym yn = ym
  Yields-if false m n ym yn = yn

module _ {A B : Type 0} {R : A → Type 0} {Q : B → Type 0} where
  continue_yields :
      (r : Result A) (s : World) (f : A → App B)
      → ((a : A) → r ≡ ok a → R a)
      → ((a : A) → R a → Yields Q (f a))
      → (b : B) → (continue (r, s) f).0 ≡ ok b
      → Q b
  continue_yields (ok a) s f ra yf b e = (yf a (ra a refl)).at s b e
  continue_yields (err x) s f ra yf b e = cc

  pub Yields-bind :
      (m : App A) (f : A → App B)
      → Yields R m
      → ((a : A) → R a → Yields Q (f a))
      → Yields Q (m >>= f)
  unfolding ◌>>=◌
  Yields-bind m f ym yf = record {
    at = λ s b e. let (r, s') = m s in continue_yields r s' f (ym.at s) yf b e;
  }

-- A bind whose first result does not matter.
pub Yields-then :
    {A B : Type 0} {Q : B → Type 0} (m : App A) (f : A → App B)
    → ((a : A) → Yields Q (f a))
    → Yields Q (m >>= f)
Yields-then m f yf = Yields-bind {R = λ a. Unit} m f (record { at = λ s a e. tt }) (λ a _. yf a)

pub Yields-with_session :
    {A : Type 0} {Q : A → Type 0} (m : App A) → Yields Q m → Yields Q (with_session m)
unfolding with_session
Yields-with_session m ym = record { at = λ s a e. ym.at (refresh s) a e }

pub Yields-raise_if : (c : Bool) (e : Exn) → Yields (λ _. c ≡ false) (raise_if c e)
unfolding raise_if
Yields-raise_if true e = record { at = λ s a h. cc }
Yields-raise_if false e = record { at = λ s a h. refl }

pub Yields-raise : {A : Type 0} {Q : A → Type 0} (e : Exn) → Yields Q (raise {A = A} e)
unfolding raise
Yields-raise e = record { at = λ s a h. cc }

recover_yields :
    {A : Type 0} {Q : A → Type 0} (r : Result A) (s : World) (h : Exn → App A)
    → ((a : A) → r ≡ ok a → Q a)
    → ((e : Exn) → Yields Q (h e))
    → (b : A) → (recover (r, s) h).0 ≡ ok b
    → Q b
recover_yields (ok a) s h ra yh b e = ra b e
recover_yields (err x) s h ra yh b e = (yh x).at s b e

pub Yields-catch :
    {A : Type 0} {Q : A → Type 0} (m : App A) (h : Exn → App A)
    → Yields Q m
    → ((e : Exn) → Yields Q (h e))
    → Yields Q (catch m h)
unfolding catch
Yields-catch m h ym yh = record {
  at = λ s b e. let (r, s') = m s in recover_yields r s' h (ym.at s) yh b e;
}

-- The rest of an action may use what its beginning returned.
pub Keeps-bind-Yields :
    {X Y : Type 0} {P : World → Type 0} {R : X → Type 0} (first : App X) (next : X → App Y)
    → Keeps P first
    → Yields R first
    → ((x : X) → R x → Keeps P (next x))
    → Keeps P (first >>= next)
unfolding ◌>>=◌
Keeps-bind-Yields {X = X} {P = P} {R = R} first next keeps_first yields keeps_next = record {
  at = λ before held.
      let (outcome, after) = first before in
      going outcome after (keeps_first.at before held) (yields.at before);
}
  where
    going :
        (outcome : Result X) (after : World)
        → P after
        → ((x : X) → outcome ≡ ok x → R x)
        → P (continue (outcome, after) next).1
    going (err e) after held returned = held
    going (ok x) after held returned = (keeps_next x (returned x refl)).at after held
