-- ===== src/World/Failures.antt =====
-- What an action leaves behind when it raises, one rule for each way to build an action.
use mikrotik.Prelude.{
  ◌≡◌, refl, Bool, true, false, subst, ap, Bool-cases, inl, inr, Option, none, some, sym, ◌∙◌, ℕ,
  String, if◌then◌else◌,
}
use mikrotik.Models.{constraints_hold, Db}
use mikrotik.World.{
  World, App, Exn, Result, ok, err, pure, raise, gets, ◌>>=◌, raise_if, catch, commit, continue,
  recover, flush, Env, or_raise, draw, write, integrity,
}
use mikrotik.World.Keeps.{Keeps}

-- If the action starts in a world with `P` and raises `e`, it leaves a world with `Q e`.
pub record Fails {A : Type 0} (P : World → Type 0) (Q : Exn → World → Type 0) (m : App A)
    : Type 0 where
  pub at : (s : World) → P s → (e : Exn) → (m s).0 ≡ err e → Q e (m s).1

-- What `e` promises, if this is the exception `e`.
abbrev OfExn : {A : Type 0} → (Exn → Type 0) → Result A → Type 0
OfExn Q (err e) = Q e
OfExn Q (ok a) = Unit

module _ {P : World → Type 0} {A : Type 0} where
  pub Fails-Keeps : (m : App A) → Keeps P m → Fails P (λ _. P) m
  Fails-Keeps m keeps = record { at = λ s held e raised. keeps.at s held }

module _ {P : World → Type 0} {Q : Exn → World → Type 0} where
  pub Fails-raise_if :
      (test : Bool) (e : Exn) → ((w : World) → P w → Q e w) → Fails P Q (raise_if test e)
  unfolding raise_if
  Fails-raise_if true e allowed = record {
    at = λ s held e' raised. subst (OfExn (λ x. Q x s)) raised (allowed s held);
  }
  Fails-raise_if false e allowed = record { at = λ s held e' raised. cc }

  pub Fails-raise :
      {A : Type 0} (e : Exn) → ((w : World) → P w → Q e w) → Fails P Q (raise {A = A} e)
  unfolding raise
  Fails-raise e allowed = record {
    at = λ s held e' raised. subst (OfExn (λ x. Q x s)) raised (allowed s held);
  }

  pub Fails-gets : {A : Type 0} (read : World → A) → Fails P Q (gets read)
  unfolding gets
  Fails-gets read = record { at = λ s held e raised. cc }

module _ {P : World → Type 0} {Q : Exn → World → Type 0} where
  pub Fails-or_raise :
      {X : Type 0} (found : Option X) (e : Exn)
      → ((w : World) → P w → Q e w)
      → Fails P Q (or_raise found e)
  unfolding or_raise
  Fails-or_raise none e allowed = Fails-raise e allowed
  Fails-or_raise (some x) e allowed = record { at = λ s held e' raised. cc }

  pub Fails-pure : {X : Type 0} (x : X) → Fails P Q (pure x)
  unfolding pure
  Fails-pure x = record { at = λ s held e raised. cc }

  pub Fails-if :
      {X : Type 0} (test : Bool) (yes_branch no_branch : App X)
      → Fails P Q yes_branch
      → Fails P Q no_branch
      → Fails P Q (if test then yes_branch else no_branch)
  Fails-if true yes_branch no_branch y n = y
  Fails-if false yes_branch no_branch y n = n

  pub Fails-draw : (source : Env → ℕ → String) → Fails P Q (draw source)
  unfolding draw
  Fails-draw source = record { at = λ s held e raised. cc }

  pub Fails-write : (f : Db → Db) → Fails P Q (write f)
  unfolding write
  Fails-write f = record { at = λ s held e raised. cc }

  pub Fails-flush : ((w : World) → P w → Q integrity w) → Fails P Q flush
  unfolding flush
  Fails-flush allowed = record {
    at = λ s held e raised. flushed (constraints_hold s.session) s held e raised;
  }
    where
      flushed :
          (fits : Bool) (s : World)
          → P s
          → (e : Exn) → (if fits then ok (tt {0}) else err integrity) ≡ err e
          → Q e s
      flushed true s held e raised = cc
      flushed false s held e raised = subst (OfExn (λ x. Q x s)) raised (allowed s held)

module _ {P : World → Type 0} {Q : Exn → World → Type 0} {X Y : Type 0} where
  passed :
      (outcome : Result X) (after : World) (next : X → App Y) (e : Exn)
      → P after
      → ((x : Exn) → outcome ≡ err x → Q x after)
      → ((x : X) → Fails P Q (next x))
      → (continue (outcome, after) next).0 ≡ err e
      → Q e (continue (outcome, after) next).1
  passed (err x) after next e held failed later raised =
      subst (OfExn (λ y. Q y after)) raised (failed x refl)
  passed (ok x) after next e held failed later raised = (later x).at after held e raised

  pub Fails-bind :
      (first : App X) (next : X → App Y)
      → Keeps P first
      → Fails P Q first
      → ((x : X) → Fails P Q (next x))
      → Fails P Q (first >>= next)
  unfolding ◌>>=◌
  Fails-bind first next keeps fails later = record {
    at = λ s held e raised.
        let (outcome, after) = first s in
        passed outcome after next e (keeps.at s held) (fails.at s held) later raised;
  }

module _ {Q R : Exn → World → Type 0} {X : Type 0} where
  handled :
      (outcome : Result X) (after : World) (handler : Exn → App X) (e : Exn)
      → ((x : Exn) → outcome ≡ err x → R x after)
      → ((x : Exn) → Fails (R x) Q (handler x))
      → (recover (outcome, after) handler).0 ≡ err e
      → Q e (recover (outcome, after) handler).1
  handled (ok x) after handler e failed later raised = cc
  handled (err x) after handler e failed later raised = (later x).at after (failed x refl) e raised

  pub Fails-catch :
      {P : World → Type 0} (body : App X) (handler : Exn → App X)
      → Fails P R body
      → ((x : Exn) → Fails (R x) Q (handler x))
      → Fails P Q (catch body handler)
  unfolding catch
  Fails-catch body handler fails later = record {
    at = λ s held e raised.
        let (outcome, after) = body s in
        handled outcome after handler e (fails.at s held) later raised;
  }

committed_read :
    {X Y : Type 0} (read : World → X) (result : X → Y) (s : World)
    → constraints_hold s.session ≡ true
    → (commit >>= λ _. gets read >>= λ x. pure (result x)) s
      ≡ (ok (result (read (record s { db = s.session }))), record s { db = s.session })
unfolding commit flush ◌>>=◌
committed_read read result s good = rw good refl

-- A commit that fails changes nothing, and reading what it left does not fail.
pub Fails-commit :
    {P : World → Type 0} {Q : Exn → World → Type 0} {X Y : Type 0} (read : World → X)
    (result : X → Y)
    → ((w : World) → P w → Q integrity w)
    → Fails P Q (commit >>= λ _. gets read >>= λ x. pure (result x))
unfolding commit flush ◌>>=◌
Fails-commit {Q = Q} read result allowed = record {
  at = λ s held e raised. elim (Bool-cases (constraints_hold s.session)) [
    | inl good ↦
        let done : ((commit >>= λ _. gets read >>= λ x. pure (result x)) s).0
            ≡ ok (result (read (record s { db = s.session }))) =
          ap (λ r. r.0) (committed_read read result s good) in
        cc
    | inr bad ↦
        let clash : ((commit >>= λ _. gets read >>= λ x. pure (result x)) s).0 ≡ err integrity =
          rw bad refl in
        rw bad (subst (OfExn (λ x. Q x s)) (sym clash ∙ raised) (allowed s held))
  ];
}

pub ruleset failing_rules = (
  Fails-bind, Fails-gets, Fails-pure, Fails-if, Fails-draw, Fails-write, Fails-flush,
  Fails-or_raise, Fails-raise_if, Fails-raise,
)
