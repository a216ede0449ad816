-- ===== src/Postgres/Peers.antt =====
-- get.go, SavePeer of save.go, and the ticker of hub/main.go that drops silent peers. Times are
-- nanoseconds.
use mathlib.Core.Option.{some-injective}
use demedia_nostr.Prelude.{
  In, ℕ, zero, suc, ◌-◌, ◌*◌, ◌<◌, ◌≡◌, ◌≢◌, refl, ap, String, ◌==◌, eq_iff, true, false, Option,
  none, some, List, [], ◌∷◌, length, map, arith, ltb, nat_beq, if◌then◌else◌, inl, inr,
  Option-cases, Bool-cases, string_eq,
}
use demedia_nostr.Prelude.Map.{Map, lookup, insert, lookup-insert, NodupKeys, insert-NodupKeys}
use demedia_nostr.Postgres.Table.{PeerInfo}

abbrev pub Peers : Type 0
Peers = Map String PeerInfo

-- `now` is what time.Now returns.
unfoldable pub save_peer : ℕ → String → String → Peers → Peers
save_peer now address pubkey peers =
    insert pubkey (record { address = address; last_update = now }) peers

-- b.Map[pubkey].Address: of a missing key the zero value
abbrev pub address_of : Option PeerInfo → String
address_of none = ""
address_of (some p) = p.address

-- The loop that returns the address at place `n`; past the end, the function's last line.
abbrev pub nth_address : Peers → ℕ → String → String
nth_address [] n address = address
nth_address ((k, v) ∷ peers) zero address = v.address
nth_address ((k, v) ∷ peers) (suc n) address = nth_address peers n address

-- `intn` is rand.Intn, a number below its argument.
unfoldable pub get_peer : (ℕ → ℕ) → String → Peers → String
get_peer intn pubkey peers =
    let address = address_of (lookup pubkey peers) in
    if address == ""
    then (if nat_beq (length peers) 0 then "" else nth_address peers (intn (length peers)) address)
    else address

-- One tick: the loop over the map, with deletions in it. Each key is visited once.
unfoldable pub drop_silent : ℕ → Peers → Peers
drop_silent now [] = []
drop_silent now ((k, e) ∷ peers) =
    let rest = drop_silent now peers in
    if ltb (5 * 1000000000) (now - e.last_update) then rest else (k, e) ∷ rest

-- The address of a peer whose address is known.
pub get_peer_known :
    (intn : ℕ → ℕ) (pubkey : String) (peers : Peers) (p : PeerInfo)
    → lookup pubkey peers ≡ some p
    → p.address ≢ ""
    → get_peer intn pubkey peers ≡ p.address
unfolding get_peer
get_peer_known intn pubkey peers p e h = ground (arith, e, eq_iff p.address "")

abbrev pub addresses : Peers → List String
addresses = map (λ (e : String × PeerInfo). e.1.address)

In-nth_address :
    (peers : Peers) (n : ℕ) (d : String)
    → n < length peers
    → In (nth_address peers n d) (addresses peers)
In-nth_address [] n d h = absurd (omega arith)
In-nth_address ((k, v) ∷ peers) zero d h = inl refl
In-nth_address ((k, v) ∷ peers) (suc n) d h = inr (In-nth_address peers n d (omega arith))

In-lookup :
    (pubkey : String) (peers : Peers) (p : PeerInfo)
    → lookup pubkey peers ≡ some p
    → In p.address (addresses peers)
unfolding lookup
In-lookup pubkey [] p e = cc
In-lookup pubkey ((k, v) ∷ peers) p e = elim (Bool-cases (k == pubkey)) [
  | inl t ↦
      let same : v ≡ p = some-injective v p (ground (arith, t)) in
      inl (ap (λ (q : PeerInfo). q.address) same)
  | inr t ↦ inr (In-lookup pubkey peers p (ground (arith, t)))
]

-- While any peer is registered, and rand.Intn returns a number below its argument, the address
-- that GetPeer returns, for any key, is the address of a registered peer.
pub get_peer-In :
    (intn : ℕ → ℕ) (pubkey : String) (peers : Peers)
    → ((n : ℕ) → 0 < n → intn n < n)
    → 0 < length peers
    → In (get_peer intn pubkey peers) (addresses peers)
unfolding get_peer
get_peer-In intn pubkey peers below h = elim (Option-cases (lookup pubkey peers)) [
  | inl e ↦ at_random (rw e refl)
  | inr (p, e) ↦ elim (Bool-cases (p.address == "")) [
    | inl t ↦ at_random (rw e t)
    | inr t ↦ rw (e, get_peer) (rw t (In-lookup pubkey peers p e))
  ]
]
  where
    at_random :
        (address_of (lookup pubkey peers) == "") ≡ true
        → In (get_peer intn pubkey peers) (addresses peers)
    at_random t =
        let some_peer : nat_beq (length peers) 0 ≡ false = ground arith in
        rw (t, get_peer)
          (rw some_peer (
            In-nth_address peers (intn (length peers)) (address_of (lookup pubkey peers))
              (below (length peers) h)))

-- What a tick makes of an entry.
abbrev pub still : ℕ → Option PeerInfo → Option PeerInfo
still now none = none
still now (some e) = if ltb (5 * 1000000000) (now - e.last_update) then none else some e

lookup-drop_silent :
    (now : ℕ) (k : String) (peers : Peers)
    → NodupKeys peers
    → lookup k (drop_silent now peers) ≡ still now (lookup k peers)
unfolding lookup drop_silent
lookup-drop_silent now k [] u = refl
lookup-drop_silent now k ((j, e) ∷ peers) u =
    ground (arith, eq_iff j k, lookup-drop_silent now k peers u.1, u.0)

-- After a registration and a later tick, the peer is there with its address if at most five
-- seconds lie between them, and else is not; what was known of it before has no effect.
pub lookup-drop_silent_save :
    (registered now : ℕ) (pubkey address : String) (peers : Peers)
    → NodupKeys peers
    → lookup pubkey (drop_silent now (save_peer registered address pubkey peers)) ≡ (
        if ltb (5 * 1000000000) (now - registered)
        then none
        else some (record { address = address; last_update = registered }))
unfolding save_peer
lookup-drop_silent_save registered now pubkey address peers u =
    let p : PeerInfo = record { address = address; last_update = registered } in
    ground (
      arith,
      eq_iff pubkey pubkey,
      lookup-insert pubkey pubkey p peers,
      lookup-drop_silent now pubkey (insert pubkey p peers) (insert-NodupKeys pubkey p peers u),
    )
