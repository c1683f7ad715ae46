-- ===== src/World/Frames.antt =====
-- The changes that actions make, one by one: which of them an invariant allows, and that the actions
-- which make no other keep it.
use mikrotik.Prelude.{ℕ, String, List}
use mikrotik.World.{World, Env, Call, draw, ask, send, flush, HttpRequest}
use mikrotik.World.Keeps.{Keeps}

-- Calls to the outside and draws from it keep `P`.
pub record IsQuiet (P : World → Type 0) : Type 0 where
  pub drawn : (s : World) (n : ℕ) → P s → P (record s { draws = n })
  pub called : (s : World) (cs : List Call) → P s → P (record s { calls = cs })

module _ {P : World → Type 0} where
  pub Keeps-draw : (source : Env → ℕ → String) → IsQuiet P → Keeps P (draw source)
  unfolding draw
  Keeps-draw source q = record { at = λ s h. q.drawn s _ h }

  pub Keeps-ask : (c : Call) → IsQuiet P → Keeps P (ask c)
  unfolding ask
  Keeps-ask c q = record { at = λ s h. q.called s _ h }

  pub Keeps-send : (r : HttpRequest) → IsQuiet P → Keeps P (send r)
  unfolding send
  Keeps-send r q = record { at = λ s h. q.drawn s _ h }

  pub Keeps-flush : Keeps P flush
  unfolding flush
  Keeps-flush = record { at = λ s h. h }

pub ruleset quiet_rules = (Keeps-draw, Keeps-ask, Keeps-send, Keeps-flush)
