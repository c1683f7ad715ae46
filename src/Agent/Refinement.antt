-- ===== src/Agent/Refinement.antt =====
-- vpn_agent/agent.py: the secrets file as a map from users to addresses.
use mikrotik.Prelude.{
  if◌then◌else◌, String, ◌≡◌, ◌∙◌, refl, sym, subst, true, false, not, Bool-cases, inl, inr, Option,
  none, some, List, [], ◌∷◌, ◌++◌, eq_iff, str_eq, is_some, Option-cases, or_text,
}
use mikrotik.Agent.{
  PeerStore, Outcome, done, rejected, invalid, Action, create, rotate, delete, Reply, deleted,
  assigned, mutate, bad_password, is_peer_name, known_address, retained, written, entry_line,
  address_for, address_token, allocate, is_entry_of, write_entry, write_lines, change, remove_entry,
}
use mikrotik.Agent.Peers.{
  retained-none, entry-one, retained-other, written-known, append-known, append-other,
  written-entry,
}

-- Who has which address.
abbrev pub Leases : Type 0
Leases = String → Option String

-- The leases that the lines of a file stand for.
abbrev pub leases : PeerStore → List String → Leases
leases store lines username = known_address store username lines

-- One user's lease is another.
abbrev pub set_lease : String → Option String → Leases → Leases
set_lease username lease before u = if str_eq username u then lease else before u

-- The text of the address that the pool gives next.
abbrev pub next_address : PeerStore → Option String
next_address store = elim (allocate store store.lines) [
  | none ↦ none
  | some ip ↦ some (store.show_ip ip)
]

-- a user who has a lease keeps it; another gets the next address, if there is one
abbrev pub lease_to : Option String → Leases → String → Option String → Leases × Outcome Reply
lease_to next before username (some address) = (before, done (assigned false address))
lease_to none before username none = (
  before,
  rejected (record { message = "No L2TP addresses are available"; code = "pool_exhausted" }),
)
lease_to (some address) before username none =
    (set_lease username (some address) before, done (assigned true address))

abbrev pub perform_on : Option String → Leases → Action → String → Leases × Outcome Reply
perform_on next before delete username =
    (set_lease username none before, done (deleted (is_some (before username))))
perform_on next before create username = lease_to next before username (before username)
perform_on next before rotate username = lease_to next before username (before username)

-- What the agent promises: a change of the map, and a reply.
abbrev pub promised :
    Option String → Leases → Action → String → Option String → Leases × Outcome Reply
promised next before action username password =
    if not (is_peer_name username)
    then (before, invalid "Invalid managed peer username")
    else if bad_password action password
    then (before, invalid "Invalid peer password")
    else perform_on next before action username

module _ (store : PeerStore) (username : String) (blank : store.split "" ≡ []) where
  kept : List String
  kept = retained store username store.lines

  removed-at :
      (u : String)
      → known_address store u (written kept) ≡ set_lease username none (leases store store.lines) u
  unfolding kept
  removed-at u = elim (Bool-cases (str_eq username u)) [
    | inl same ↦ rw same (
        subst (λ x. known_address store x (written kept) ≡ none) ((eq_iff username u).0 same)
          (written-known store username blank kept ∙ retained-none store username store.lines))
    | inr apart ↦
        rw apart
          (written-known store u blank kept ∙ retained-other store username u apart store.lines)
  ]

  module _ (line address : String) (entry : is_entry_of store username line ≡ true)
      (token : address_token (store.split line) ≡ some address) where
    added-at :
        (u : String)
        → known_address store u (written (kept ++ line ∷ []))
          ≡ set_lease username (some address) (leases store store.lines) u
    unfolding kept
    added-at u = elim (Bool-cases (str_eq username u)) [
      | inl same ↦ rw same (
          subst (λ x. known_address store x (written (kept ++ line ∷ [])) ≡ some address)
            ((eq_iff username u).0 same)
            (written-known store username blank _
              ∙ append-known store username kept line (retained-none store username store.lines)
                  entry
              ∙ token))
      | inr apart ↦ rw apart (
          written-known store u blank _
          ∙ append-other store u kept line (entry-one store username u apart line entry)
          ∙ retained-other store username u apart store.lines)
    ]

  -- A lease that is set to what it is stays.
  set-same :
      (before : Leases) (u : String) → set_lease username (before username) before u ≡ before u
  set-same before u = elim (Bool-cases (str_eq username u)) [
    | inl same ↦ rw same (subst (λ x. before username ≡ before x) ((eq_iff username u).0 same) refl)
    | inr apart ↦ rw apart refl
  ]

-- A write of an entry, for a user who may have one.
module _ (store : PeerStore) (username password : String) (blank : store.split "" ≡ [])
    (named : is_peer_name username ≡ true)
    (quoted : (address : String)
      → address_for store (known_address store username store.lines) ≡ some address
      → store.split (entry_line store username password address)
        ≡ username ∷ store.server_name ∷ password ∷ address ∷ []) where
  entry-at :
      (address : String)
      → address_for store (known_address store username store.lines) ≡ some address
      → (u : String)
      → known_address store u (
          written (
            retained store username store.lines ++ entry_line store username password address ∷ []))
        ≡ set_lease username (some address) (leases store store.lines) u
  unfolding address_token kept
  entry-at address given u =
      added-at store username blank (entry_line store username password address) address
        (written-entry store username password address (quoted address given) named)
        (rw (quoted address given) refl) u

  fresh-refines :
      (known : known_address store username store.lines ≡ none) (next : Option String)
      → address_for store none ≡ next
      → (u : String)
      → (leases store (write_entry store username password none).0.lines u
          ≡ (lease_to next (leases store store.lines) username none).0 u)
        × ((write_entry store username password none).1
            ≡ (lease_to next (leases store store.lines) username none).1)
  unfolding write_entry write_lines
  fresh-refines absent none full u = rw (full, write_entry) (refl, refl)
  fresh-refines absent (some address) given u =
      rw (given, write_entry) (entry-at address (rw absent given) u, refl)

  write-refines :
      (u : String)
      → (leases store
            (write_entry store username password (known_address store username store.lines)).0.lines
            u
          ≡ (lease_to
                (next_address store)
                (leases store store.lines)
                username
                (known_address store username store.lines)).0
              u)
        × ((write_entry store username password (known_address store username store.lines)).1
            ≡ (lease_to
                (next_address store)
                (leases store store.lines)
                username
                (known_address store username store.lines)).1)
  unfolding write_entry address_for write_lines
  write-refines u = elim (Option-cases (known_address store username store.lines)) [
    | inr (address, known) ↦ rw known (
      entry-at address (rw known refl) u
          ∙ rw (← known) (set-same store username blank (leases store store.lines) u),
      refl,
    )
    | inl absent ↦ rw absent (fresh-refines absent (next_address store) refl u)
  ]

-- The agent refines a map from users to addresses. Seen as that map, with the entry of each user as
-- their lease, the secrets file changes by an action as the map is promised to, and the reply is the
-- promised one: a bad name or password changes nothing, a deletion takes the user's lease away, and
-- any other action leaves a user who has a lease with it and gives another the next free address, if
-- there is one. It takes that a blank line splits into no tokens, and that the entry which may be
-- written splits into the user, the server, the password and the address.
pub mutate-refines :
    (store : PeerStore) (action : Action) (username : String) (password : Option String)
    → store.split "" ≡ []
    → ((address : String)
        → address_for store (known_address store username store.lines) ≡ some address
        → store.split (entry_line store username (or_text password "") address)
          ≡ username ∷ store.server_name ∷ or_text password "" ∷ address ∷ [])
    → (user : String)
    → (leases store (mutate store action username password).0.lines user
        ≡ (promised (next_address store) (leases store store.lines) action username password).0
            user)
      × ((mutate store action username password).1
          ≡ (promised (next_address store) (leases store store.lines) action username password).1)
unfolding mutate change kept write_lines
mutate-refines store action username password blank quoted user =
    elim (Bool-cases (is_peer_name username)) [
      | inr unnamed ↦ rw unnamed (refl, refl)
      | inl named ↦ elim (Bool-cases (bad_password action password)) [
        | inl weak ↦ rw (named, weak) (refl, refl)
        | inr strong ↦ rw (named, strong) (acted named action)
      ]
    ]
  where
    before : Leases
    before = leases store store.lines

    acted :
        is_peer_name username ≡ true
        → (action : Action)
        → (leases store
              (change store action username
                (or_text password "")
                (known_address store username store.lines)).0.lines
              user
            ≡ (perform_on (next_address store) before action username).0 user)
          × ((change store action username
                (or_text password "")
                (known_address store username store.lines)).1
              ≡ (perform_on (next_address store) before action username).1)
    acted named create = write-refines store username (or_text password "") blank named quoted user
    acted named rotate = write-refines store username (or_text password "") blank named quoted user
    acted named delete = elim (Option-cases (known_address store username store.lines)) [
      | inl absent ↦
          rw (absent, remove_entry)
            (
              sym (
                  subst (λ o. set_lease username o before user ≡ before user) absent
                    (set-same store username blank before user)),
              refl,
            )
      | inr (address, known) ↦ rw (known, remove_entry) (removed-at store username blank user, refl)
    ]
