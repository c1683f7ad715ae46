-- ===== src/World/Actions.antt =====
-- The world that a call of a service runs in, and calls as actions: state, and exceptions that
-- leave standing what was written before them.
use mikrotik.Prelude.{ℕ, suc, String, Bool, Option, none, some, List, ◌∷◌, if◌then◌else◌}
use mikrotik.Models.{Db}
use mikrotik.World.Errors.{Exn, Result, ok, err}
use mikrotik.World.Outside.{Env, Call, Reply, HttpRequest, HttpReply}

pub record World : Type 0 where
  pub env : Env
  -- what is committed
  pub db : Db
  -- the working copy of the open `SessionLocal()`
  pub session : Db
  -- `datetime.utcnow()`, in seconds
  pub now : ℕ
  -- draws from the random sources and the payment providers so far
  pub draws : ℕ
  -- RouterOS calls made so far, the latest first
  pub calls : List Call

abbrev pub App : Type 0 → Type 0
App A = World → Result A × World

module _ {A : Type 0} where
  unfoldable pub pure : A → App A
  pure a s = (ok a, s)

  unfoldable pub raise : Exn → App A
  raise e s = (err e, s)

  unfoldable pub gets : (World → A) → App A
  gets f s = (ok (f s), s)

  unfoldable pub lift : Result A → App A
  lift r s = (r, s)

  -- `x` is not `None`, or an exception
  unfoldable pub or_raise : Option A → Exn → App A
  unfolding raise pure
  or_raise none e = raise e
  or_raise (some a) e = pure a

abbrev pub continue : {A B : Type 0} → Result A × World → (A → App B) → Result B × World
continue (ok a, s) f = f a s
continue (err e, s) f = (err e, s)

-- `if condition: raise e`
unfoldable pub raise_if : Bool → Exn → App (Unit {0})
raise_if c e s = (if c then err e else ok tt, s)

unfoldable pub modify : (World → World) → App (Unit {0})
modify f s = (ok tt, f s)

abbrev pub recover : {A : Type 0} → Result A × World → (Exn → App A) → Result A × World
recover (ok a, s) h = (ok a, s)
recover (err e, s) h = h e s

-- `try: m; except Exception as e: h(e)`
unfoldable pub catch : {A : Type 0} → App A → (Exn → App A) → App A
catch m h s = recover (m s) h

abbrev pub settle : {A : Type 0} → Result A × World → App (Result A)
settle (r, s') _ = (ok r, s')

-- an action's outcome as a value, as with `return_exceptions=True`
unfoldable pub attempt : {A : Type 0} → App A → App (Result A)
attempt m s = settle (m s) s

-- One value of a random source.
unfoldable pub draw : (Env → ℕ → String) → App String
draw source s = (ok (source s.env s.draws), record s { draws = suc s.draws })

-- One call of a router's API.
unfoldable pub ask : Call → App Reply
ask c s = (ok (s.env.respond s.calls c), record s { calls = c ∷ s.calls })

-- One request to a payment provider.
unfoldable pub send : HttpRequest → App HttpReply
send request s = (s.env.http_send s.draws request, record s { draws = suc s.draws })

infixl 5 ◌>>=◌ ◌>>◌
-- opening this opens the actions above too
unfoldable pub ◌>>=◌ : {A B : Type 0} → App A → (A → App B) → App B
unfolding pure raise gets lift or_raise raise_if modify draw ask send catch attempt
◌>>=◌ m f s = continue (m s) f

abbrev pub ◌>>◌ : {A B : Type 0} → App A → App B → App B
m >> k = m >>= λ _. k
