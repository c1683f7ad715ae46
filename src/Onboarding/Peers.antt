-- ===== src/Onboarding/Peers.antt =====
-- services/onboarding_service.py and vpn_agent/agent.py: the names and passwords that an onboarding asks the
-- agent for, before the agent's own patterns.
use Prim.Native.Char.{code}
use text.Mathlib.TextLemmas.{nil-append, cons-append}
use mikrotik.Prelude.{
  ℕ, String, ◌≡◌, refl, ap, subst, or_text, Bool, true, ◌||◌, ◌&&◌, some, List, [], ◌∷◌, ◌++◌,
  arith, join, codes, is_digit, leb, ◌==◌, all, map, length, truthy, is_some, not,
}
use mikrotik.Agent.{
  PeerStore, create, assigned, done, mutate, known_address, address_for, is_peer_name,
  is_peer_password, is_hex, hex_run, hex_groups, strip_prefix, is_password_code, write_entry,
}
use mikrotik.Onboarding.Texts.{l2tp_username}

-- a digit of `uuid4`
abbrev pub is_uuid_digit : ℕ → Bool
is_uuid_digit c = is_digit c || (leb b'a' c && leb c b'f')

-- the groups, with a dash before each
abbrev pub dashed : List (List ℕ) → List ℕ
dashed [] = []
dashed (group ∷ groups) = b'-' ∷ group ++ dashed groups

-- `str(uuid4())`: hexadecimal digits in groups of these lengths.
pub record IsUuid (uid : String) : Type 0 where
  pub first : List ℕ
  pub groups : List (List ℕ)
  pub digits : all is_uuid_digit first ≡ true
  pub group_digits : all (all is_uuid_digit) groups ≡ true
  pub eight : length first ≡ 8
  pub lengths : map length groups ≡ 4 ∷ 4 ∷ 4 ∷ 12 ∷ []
  pub written : codes uid ≡ first ++ dashed groups

abbrev pub is_url_safe : ℕ → Bool
is_url_safe c =
    (leb b'a' c && leb c b'z') || (leb b'A' c && leb c b'Z') || is_digit c || c == b'-' || c == b'_'

-- `secrets.token_urlsafe(24)`: 32 characters.
pub record IsToken (password : String) : Type 0 where
  pub safe : all is_url_safe (codes password) ≡ true
  pub long : length (codes password) ≡ 32

hex_run-append :
    (xs rest : List ℕ) → all is_uuid_digit xs ≡ true → hex_run (length xs) (xs ++ rest) ≡ some rest
unfolding hex_run is_hex
hex_run-append [] rest h = refl
hex_run-append (x ∷ xs) rest h = ground (arith, hex_run-append xs rest)

hex_groups-dashed :
    (groups : List (List ℕ))
    → all (all is_uuid_digit) groups ≡ true
    → hex_groups (map length groups) (dashed groups) ≡ true
unfolding hex_groups
hex_groups-dashed [] h = refl
hex_groups-dashed (group ∷ groups) h =
    rw (hex_run-append group (dashed groups) (ground arith))
      (hex_groups-dashed groups (ground arith))

codes-join : (s t : String) → codes (join s t) ≡ codes s ++ codes t
codes-join String.[] t = rw nil-append refl
codes-join (String.◌∷◌ c s) t = rw cons-append (ap (λ cs. code c ∷ cs) (codes-join s t))

strip_prefix-append : (ps s : List ℕ) → strip_prefix ps (ps ++ s) ≡ some s
unfolding strip_prefix
strip_prefix-append [] s = refl
strip_prefix-append (p ∷ ps) s = ground (arith, strip_prefix-append ps s)

stripped :
    (uid : String) (u : IsUuid uid)
    → strip_prefix (codes "router-") (codes (join "router-" uid))
      ≡ some (u.first ++ dashed u.groups)
stripped uid u =
    rw (codes-join "router-" uid, u.written)
      (strip_prefix-append (codes "router-") (u.first ++ dashed u.groups))

first_run :
    (uid : String) (u : IsUuid uid)
    → hex_run 8 (u.first ++ dashed u.groups) ≡ some (dashed u.groups)
first_run uid u =
    subst (λ n. hex_run n (u.first ++ dashed u.groups) ≡ some (dashed u.groups)) u.eight
      (hex_run-append u.first (dashed u.groups) u.digits)

l2tp_username-accepted : (uid : String) → IsUuid uid → is_peer_name (l2tp_username uid) ≡ true
unfolding is_peer_name l2tp_username
l2tp_username-accepted uid u =
    rw (is_peer_name, stripped uid u, first_run uid u)
      (subst (λ ns. hex_groups ns (dashed u.groups) ≡ true) u.lengths
        (hex_groups-dashed u.groups u.group_digits))

all-password : (cs : List ℕ) → all is_url_safe cs ≡ true → all is_password_code cs ≡ true
unfolding is_password_code
all-password [] h = refl
all-password (c ∷ cs) h = ground (arith, all-password cs)

token-accepted : (password : String) → IsToken password → is_peer_password password ≡ true
unfolding is_peer_password
token-accepted password t = ground (arith, all-password (codes password), t.safe, t.long)

token-truthy : (password : String) → IsToken password → truthy password ≡ true
token-truthy String.[] t = absurd (omega (arith, t.long))
token-truthy (String.◌∷◌ c s) t = refl

-- The agent takes what an onboarding asks of it: for a router whose uid is a UUID, a new peer with a
-- password of `secrets.token_urlsafe` is never refused for its name or its password; if there is an
-- address for it, the reply gives that address and says whether the peer is new.
pub mutate-l2tp_username :
    (store : PeerStore) (uid password address : String)
    → IsUuid uid
    → IsToken password
    → address_for store (known_address store (l2tp_username uid) store.lines) ≡ some address
    → (mutate store create (l2tp_username uid) (some password)).1
      ≡ done
          (assigned (not (is_some (known_address store (l2tp_username uid) store.lines))) address)
unfolding mutate or_text
mutate-l2tp_username store uid password address u t free =
    let named = l2tp_username-accepted uid u in
    let taken = token-accepted password t in
    let full = token-truthy password t in rw (named, full, taken, write_entry, free) refl
