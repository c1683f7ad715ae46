-- ===== src/Agent/Store.antt =====
-- vpn_agent/agent.py: `PeerStore`. `shlex.split` (with its `ValueError` as no tokens) and the texts
-- of addresses are parameters.
use Prim.Native.Char.{code}
use mikrotik.Prelude.{
  ℕ, zero, suc, ◌+◌, ◌-◌, String, Bool, true, false, not, ◌&&◌, ◌||◌, Option, none, some, List, [],
  ◌∷◌, ◌++◌, str_eq, truthy, truthy?, or_text, join, codes, is_digit, ◌==◌, leb, take, length, any,
  all, is_some, if◌then◌else◌,
}

pub record AgentError : Type 0 where
  pub message : String
  pub code : String

pub data Outcome {ℓ} (A : Type ℓ) : Type ℓ where
  done : A → Outcome A
  rejected : AgentError → Outcome A

abbrev pub invalid {ℓ} : {A : Type ℓ} → String → Outcome A
invalid message = rejected (record { message = message; code = "invalid_request" })

pub record PeerStore : Type 0 where
  pub split : String → List String
  pub read_ip : String → Option ℕ
  pub show_ip : ℕ → String
  pub server_name : String
  pub first_ip : ℕ
  pub last_ip : ℕ
  -- the secrets file, by lines, and its earlier versions, the latest first
  pub lines : List String
  pub backups : List (List String)

unfoldable pub is_hex : ℕ → Bool
is_hex c = is_digit c || (leb b'a' c && leb c b'f')

-- `[0-9a-f]{n}` at the start; what follows it
unfoldable pub hex_run : ℕ → List ℕ → Option (List ℕ)
unfolding is_hex
hex_run zero s = some s
hex_run (suc n) [] = none
hex_run (suc n) (c ∷ s) = let rest = hex_run n s in if is_hex c then rest else none

-- groups of these lengths, with a dash before each
unfoldable pub hex_groups : List ℕ → List ℕ → Bool
unfolding hex_run
hex_groups [] [] = true
hex_groups [] (c ∷ s) = false
hex_groups (n ∷ ns) [] = false
hex_groups (n ∷ ns) (c ∷ s) =
    (c == b'-') && elim (hex_run n s) [ none ↦ false | some rest ↦ hex_groups ns rest ]

-- `s` without the prefix, if it begins with that
unfoldable pub strip_prefix : List ℕ → List ℕ → Option (List ℕ)
strip_prefix [] s = some s
strip_prefix (p ∷ ps) [] = none
strip_prefix (p ∷ ps) (c ∷ s) = let rest = strip_prefix ps s in if c == p then rest else none

-- `PEER_PATTERN.fullmatch`
unfoldable pub is_peer_name : String → Bool
unfolding hex_run hex_groups strip_prefix
is_peer_name name = elim (strip_prefix (codes "router-") (codes name)) [
  | none ↦ false
  | some s ↦ elim (hex_run 8 s) [ none ↦ false | some rest ↦ hex_groups (4 ∷ 4 ∷ 4 ∷ 12 ∷ []) rest ]
]

unfoldable pub is_password_code : ℕ → Bool
is_password_code c =
    is_digit c || (leb b'a' c && leb c b'z') || (leb b'A' c && leb c b'Z') || c == b'_' || c == b'-'

-- `PASSWORD_PATTERN.fullmatch`
unfoldable pub is_peer_password : String → Bool
unfolding is_password_code
is_peer_password password =
    let cs = codes password in all is_password_code cs && leb 20 (length cs) && leb (length cs) 128

-- `_managed`: at least four tokens, the first a peer's name
unfoldable pub is_managed : List String → Bool
is_managed (name ∷ server ∷ secret ∷ address ∷ rest) = is_peer_name name
is_managed _ = false

-- the fourth token, if there are as many
unfoldable pub address_token : List String → Option String
address_token (name ∷ server ∷ secret ∷ address ∷ rest) = some address
address_token _ = none

-- The addresses of the lines' peers; a token that is no address is passed over.
unfoldable pub used_addresses : PeerStore → List String → List ℕ
used_addresses store [] = []
used_addresses store (line ∷ lines) =
    let rest = used_addresses store lines in
    elim (address_token (store.split line)) [
      | none ↦ rest
      | some token ↦ elim (store.read_ip token) [ none ↦ rest | some ip ↦ ip ∷ rest ]
    ]

-- the loop of `_allocate`, with the number of addresses left
unfoldable pub first_free : ℕ → ℕ → List ℕ → Option ℕ
first_free zero current used = none
first_free (suc left) current used =
    let next = first_free left (current + 1) used in
    if any (λ ip. ip == current) used then next else some current

unfoldable pub allocate : PeerStore → List String → Option ℕ
unfolding first_free
allocate store lines =
    first_free (store.last_ip + 1 - store.first_ip) store.first_ip (used_addresses store lines)

unfoldable pub drop_blank : String → List String → List String
drop_blank line [] = if truthy line then line ∷ [] else []
drop_blank line (next ∷ rest) = line ∷ next ∷ rest

unfoldable pub without_blank_end : List String → List String
unfolding drop_blank
without_blank_end [] = []
without_blank_end (line ∷ lines) = drop_blank line (without_blank_end lines)

-- The lines of `"\n".join(lines).rstrip("\n") + "\n"`: an empty file is one empty line.
unfoldable pub written : List String → List String
unfolding without_blank_end
written lines = elim (without_blank_end lines) [ [] ↦ "" ∷ [] | line ∷ rest ↦ line ∷ rest ]

-- `_write`: the old file is kept, and of the old files the latest twenty
unfoldable pub write_lines : PeerStore → List String → PeerStore
unfolding written
write_lines store lines = record store {
  lines = written lines;
  backups = take 20 (store.lines ∷ store.backups);
}

unfoldable pub has_name : String → List String → Bool
has_name username [] = false
has_name username (name ∷ rest) = str_eq name username

-- whether the line is the managed entry of this user
unfoldable pub is_entry_of : PeerStore → String → String → Bool
unfolding has_name
is_entry_of store username line =
    is_managed (store.split line) && has_name username (store.split line)

-- `retained`
unfoldable pub retained : PeerStore → String → List String → List String
retained store username [] = []
retained store username (line ∷ lines) =
    let rest = retained store username lines in
    if is_entry_of store username line then rest else line ∷ rest

-- `matches[0][3]`, the address of the first entry of this user
unfoldable pub known_address : PeerStore → String → List String → Option String
known_address store username [] = none
known_address store username (line ∷ lines) =
    let rest = known_address store username lines in
    if is_entry_of store username line then address_token (store.split line) else rest

escape : String → String
escape String.[] = ""
escape (String.◌∷◌ c s) =
    if code c == b'\\' || code c == b'"'
    then join "\\" (String.◌∷◌ c (escape s))
    else String.◌∷◌ c (escape s)

-- `_quote`
unfoldable pub quote : String → String
unfolding escape
quote value = join "\"" (join (escape value) "\"")

unfoldable pub entry_line : PeerStore → String → String → String → String
unfolding quote
entry_line store username password address = join (quote username) (
    join " " (join (quote store.server_name) (join " " (join (quote password) (join " " address)))))

pub data Action : Type 0 where
  create rotate delete : Action

pub data Reply : Type 0 where
  deleted : Bool → Reply
  -- whether it is new, and its address
  assigned : Bool → String → Reply

-- `action in {"create", "rotate"}` and the password is not one that the agent takes
unfoldable pub bad_password : Action → Option String → Bool
bad_password delete password = false
bad_password create password =
    not (truthy? password) || not (is_peer_password (or_text password ""))
bad_password rotate password =
    not (truthy? password) || not (is_peer_password (or_text password ""))

-- the address that an entry is written with
unfoldable pub address_for : PeerStore → Option String → Option String
address_for store (some address) = some address
address_for store none = elim (allocate store store.lines) [
  | none ↦ none
  | some ip ↦ some (store.show_ip ip)
]

unfoldable pub write_entry : PeerStore → String → String → Option String → PeerStore × Outcome Reply
unfolding address_for
write_entry store username password known = elim (address_for store known) [
  | none ↦ (
    store,
    rejected (record { message = "No L2TP addresses are available"; code = "pool_exhausted" }),
  )
  | some address ↦ (
    write_lines store
        (retained store username store.lines ++ entry_line store username password address ∷ []),
    done (assigned (not (is_some known)) address),
  )
]

-- `if action == "delete"`
unfoldable pub remove_entry : PeerStore → String → Option String → PeerStore × Outcome Reply
remove_entry store username none = (store, done (deleted false))
remove_entry store username (some address) =
    (write_lines store (retained store username store.lines), done (deleted true))

unfoldable pub change :
    PeerStore → Action → String → String → Option String → PeerStore × Outcome Reply
unfolding write_entry remove_entry
change store delete username password known = remove_entry store username known
change store create username password known = write_entry store username password known
change store rotate username password known = write_entry store username password known

-- The file lock makes the rest of the method one step.
unfoldable pub mutate : PeerStore → Action → String → Option String → PeerStore × Outcome Reply
unfolding change bad_password
mutate store action username password =
    if not (is_peer_name username)
    then (store, invalid "Invalid managed peer username")
    else if bad_password action password
    then (store, invalid "Invalid peer password")
    else change store action username (or_text password "")
        (known_address store username store.lines)
