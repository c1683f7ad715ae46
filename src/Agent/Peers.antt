-- ===== src/Agent/Peers.antt =====
-- vpn_agent/agent.py: what a mutation of the secrets file does to the entries in it.
use mikrotik.Prelude.{
  if◌then◌else◌, String, ◌≡◌, ◌∙◌, refl, true, false, ◌&&◌, Bool-cases, inl, inr, none, List, [],
  ◌∷◌, ◌++◌, arith, eq_iff, str_eq, truthy,
}
use mikrotik.Agent.{
  PeerStore, is_entry_of, is_peer_name, is_peer_password, is_managed, address_token, has_name,
  drop_blank, without_blank_end, retained, known_address, written, entry_line,
}

module _ (store : PeerStore) (username : String) where
  -- No entry of the user is left among the retained lines.
  pub retained-none :
      (lines : List String) → known_address store username (retained store username lines) ≡ none
  unfolding retained known_address
  retained-none [] = refl
  retained-none (line ∷ lines) = ground (arith, retained-none lines)

  -- A line is the entry of one user at most.
  pub entry-one :
      (other : String)
      → str_eq username other ≡ false
      → (line : String) → is_entry_of store username line ≡ true
      → is_entry_of store other line ≡ false
  unfolding is_entry_of has_name is_managed
  entry-one other apart line h = named (store.split line) h
    where
      named :
          (tokens : List String)
          → (is_managed tokens && has_name username tokens) ≡ true
          → (is_managed tokens && has_name other tokens) ≡ false
      named [] h = cc
      named (name ∷ rest) h =
          ground (arith, eq_iff name username, eq_iff name other, eq_iff username other)

  pub retained-other :
      (other : String)
      → str_eq username other ≡ false
      → (lines : List String)
      → known_address store other (retained store username lines) ≡ known_address store other lines
  unfolding retained known_address
  retained-other other apart [] = refl
  retained-other other apart (line ∷ lines) =
      ground (arith, entry-one other apart line, retained-other other apart lines)

  -- A blank line is no entry.
  blank-entry : store.split "" ≡ [] → is_entry_of store username "" ≡ false
  unfolding is_entry_of is_managed
  blank-entry blank = rw blank refl

  drop_blank-known :
      store.split "" ≡ []
      → (line : String) (lines : List String)
      → known_address store username (drop_blank line lines)
        ≡ known_address store username (line ∷ lines)
  unfolding drop_blank known_address
  drop_blank-known blank line [] = elim (Bool-cases (truthy line)) [
    | inl some_text ↦ rw some_text refl
    | inr no_text ↦ empty line no_text
  ]
    where
      empty :
          (line : String)
          → truthy line ≡ false
          → known_address store username (if truthy line then line ∷ [] else [])
            ≡ known_address store username (line ∷ [])
      empty String.[] h = rw (blank-entry blank) refl
      empty (String.◌∷◌ c t) h = refl
  drop_blank-known blank line (next ∷ rest) = refl

  end-known :
      store.split "" ≡ []
      → (lines : List String)
      → known_address store username (without_blank_end lines) ≡ known_address store username lines
  unfolding without_blank_end known_address
  end-known blank [] = refl
  end-known blank (line ∷ lines) =
      rw (drop_blank-known blank line (without_blank_end lines), end-known blank lines) refl

  filled :
      store.split "" ≡ []
      → (lines : List String)
      → known_address store username (elim lines [ [] ↦ "" ∷ [] | line ∷ rest ↦ line ∷ rest ])
        ≡ known_address store username lines
  unfolding known_address
  filled blank [] = rw (blank-entry blank) refl
  filled blank (line ∷ rest) = refl

  pub written-known :
      store.split "" ≡ []
      → (lines : List String)
      → known_address store username (written lines) ≡ known_address store username lines
  unfolding written
  written-known blank lines = filled blank (without_blank_end lines) ∙ end-known blank lines

  managed-address :
      (tokens : List String) → is_managed tokens ≡ true → address_token tokens ≡ none → ⊥
  unfolding is_managed address_token
  managed-address (a ∷ b ∷ c ∷ d ∷ rest) h none_there = cc
  managed-address (a ∷ b ∷ c ∷ []) h none_there = cc
  managed-address (a ∷ b ∷ []) h none_there = cc
  managed-address (a ∷ []) h none_there = cc
  managed-address [] h none_there = cc

  pub append-known :
      (lines : List String) (line : String)
      → known_address store username lines ≡ none
      → is_entry_of store username line ≡ true
      → known_address store username (lines ++ line ∷ []) ≡ address_token (store.split line)
  unfolding known_address is_entry_of
  append-known [] line absent entry = rw entry refl
  append-known (l ∷ lines) line absent entry =
      ground (arith, managed-address (store.split l), append-known lines line)

  pub append-other :
      (lines : List String) (line : String)
      → is_entry_of store username line ≡ false
      → known_address store username (lines ++ line ∷ []) ≡ known_address store username lines
  unfolding known_address
  append-other [] line apart = rw apart refl
  append-other (l ∷ lines) line apart = rw (append-other lines line apart) refl

pub strong-truthy : (password : String) → is_peer_password password ≡ true → truthy password ≡ true
unfolding is_peer_password
strong-truthy String.[] h = cc
strong-truthy (String.◌∷◌ c s) h = refl

pub written-entry :
    (store : PeerStore) (username password address : String)
    → store.split (entry_line store username password address)
      ≡ username ∷ store.server_name ∷ password ∷ address ∷ []
    → is_peer_name username ≡ true
    → is_entry_of store username (entry_line store username password address) ≡ true
unfolding is_entry_of is_managed has_name
written-entry store username password address quoted named =
    rw (quoted, named) ((eq_iff username username).1 refl)
