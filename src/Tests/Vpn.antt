-- ===== src/Tests/Vpn.antt =====
-- The theorems on the agent, at a file with two entries.
use mikrotik.Onboarding.Texts.{l2tp_username}
use mikrotik.Onboarding.Peers.{IsUuid, mutate-l2tp_username}
use mikrotik.Prelude.{◌≡◌, ◌≢◌, some, refl, is_some, [], codes, not, String, ◌∷◌}
use mikrotik.Agent.{
  assigned, done, mutate, known_address, is_peer_name, consume, allocate, used_addresses,
  is_entry_of, create, address_for,
}
use mikrotik.Agent.Replay.{consume_all, accepted_once}
use mikrotik.Agent.Pool.{IsFirstFree, allocate-IsFirstFree}
use mikrotik.Tests.Sample.{store}

allocate-IsFirstFree_example :
    IsFirstFree 5 5 (used_addresses store store.lines) (allocate store store.lines)
allocate-IsFirstFree_example = allocate-IsFirstFree store store.lines

accepted_once_example :
    (consume 1050
      (consume_all (consume 1000 [] "0123456789abcdef0123456789abcdef" 1000).0 [])
      "0123456789abcdef0123456789abcdef"
      1000).1
    ≢ done tt
unfolding consume mikrotik.Agent.is_nonce
accepted_once_example =
    accepted_once [] 1000 "0123456789abcdef0123456789abcdef" 1000 [] 1050 refl tt

abbrev uid : String
uid = "01234567-89ab-cdef-0123-456789abcdef"

abbrev token : String
token = "abcdefghijklmnopqrstuvwxyz_-0123"

uid-IsUuid : IsUuid uid
uid-IsUuid = record {
  first = codes "01234567";
  groups = codes "89ab" ∷ codes "cdef" ∷ codes "0123" ∷ codes "456789abcdef" ∷ [];
  digits = refl;
  group_digits = refl;
  eight = refl;
  lengths = refl;
  written = refl;
}

mutate-l2tp_username_example :
    (mutate store create (l2tp_username uid) (some token)).1
    ≡ done
        (assigned (not (is_some (known_address store (l2tp_username uid) store.lines))) "10.0.0.5")
unfolding l2tp_username address_for known_address is_entry_of mikrotik.Agent.is_managed is_peer_name
    mikrotik.Agent.address_token
mutate-l2tp_username_example =
    mutate-l2tp_username store uid token "10.0.0.5" uid-IsUuid (record { safe = refl; long = refl })
      refl
