-- ===== src/Agent/Nonces.antt =====
-- vpn_agent/agent.py: `NonceCache`. Times are in seconds.
use mikrotik.Prelude.{
  ℕ, ◌+◌, String, Bool, not, ◌&&◌, ◌||◌, List, ◌∷◌, str_eq, codes, is_digit, ◌==◌, ltb, leb, length,
  filter, any, all, if◌then◌else◌,
}
use mikrotik.Agent.Store.{Outcome, done, invalid}

-- `self.values`: the timestamp of each nonce
abbrev pub Nonces : Type 0
Nonces = List (String × ℕ)

-- `re.fullmatch(r"[0-9a-f]{32}", nonce)`
unfoldable pub is_nonce : String → Bool
is_nonce nonce =
    let cs = codes nonce in
    length cs == 32 && all (λ c. is_digit c || (leb b'a' c && leb c b'f')) cs

-- `abs(now - timestamp) > 60`
abbrev pub out_of_window : ℕ → ℕ → Bool
out_of_window now timestamp = ltb (timestamp + 60) now || ltb (now + 60) timestamp

-- `now - value <= 60`
abbrev pub is_recent : ℕ → String × ℕ → Bool
is_recent now (key, value) = leb now (value + 60)

abbrev pub has_nonce : String → Nonces → Bool
has_nonce nonce = any (λ entry. str_eq entry.0 nonce)

-- `consume` at the time `now`; the cache comes back also when the request is rejected.
unfoldable pub consume : ℕ → Nonces → String → ℕ → Nonces × Outcome (Unit {0})
consume now values nonce timestamp =
    if not (is_nonce nonce)
    then (values, invalid "Invalid nonce")
    else if out_of_window now timestamp
    then (values, invalid "Expired request")
    else let recent : Nonces = filter (is_recent now) values in
      if has_nonce nonce recent
      then (recent, invalid "Replayed request")
      else ((nonce, timestamp) ∷ recent, done tt)
