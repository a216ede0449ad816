-- ===== src/Keys.antt =====
-- keys/keys.go and host/host.go: the keys of a program, and the address that its host listens at.
-- What they call of go-ethereum, libp2p, btcec and of the packages net and externalip is a
-- parameter.
use demedia_nostr.Prelude.{
  String, Bool, true, false, not, ◌&&◌, ◌||◌, ◌==◌, ◌++◌, ◌≡◌, refl, arith, All, Option, none, some,
  List, [], ◌∷◌, if◌then◌else◌,
}
use demedia_nostr.Prelude.Text.{◌<>◌}
use demedia_nostr.Prelude.Go.{Go, returns, panics}
use demedia_nostr.Nostr.{Result, ok, err}

pub record KeyTools (Env : Type 0) : Type 1 where
  pub EcdsaKey : Type 0
  pub Libp2pKey : Type 0
  pub BtcKey : Type 0
  pub BtcPubKey : Type 0
  pub hex_to_ecdsa : String → Result EcdsaKey
  pub generate_key : Env → Result EcdsaKey × Env
  -- ecdsaPvtKey.D.Bytes()
  pub d_bytes : EcdsaKey → String
  pub unmarshal_secp256k1 : String → Result Libp2pKey
  pub priv_key_from_bytes : String → BtcKey × BtcPubKey

module _ {Env : Type 0} (k : KeyTools Env) where
  pub record Keys : Type 0 where
    pub ecdsa : k.EcdsaKey
    pub libp2p : k.Libp2pKey
    pub btc : k.BtcKey × k.BtcPubKey

  abbrev pub with_libp2p : k.EcdsaKey → Result k.Libp2pKey → Result Keys
  with_libp2p key (err e) = err e
  with_libp2p key (ok l) =
      ok (record { ecdsa = key; libp2p = l; btc = k.priv_key_from_bytes (k.d_bytes key) })

  abbrev pub with_ecdsa : Result k.EcdsaKey → Result Keys
  with_ecdsa (err e) = err e
  with_ecdsa (ok key) = with_libp2p key (k.unmarshal_secp256k1 (k.d_bytes key))

  unfoldable pub get_keys : String → Env → Result Keys × Env
  get_keys hex w =
      if hex == ""
      then (let r = k.generate_key w in (with_ecdsa r.0, r.1))
      else (with_ecdsa (k.hex_to_ecdsa hex), w)

-- An IP address: its text, and whether To4 is not nil.
pub record Ip : Type 0 where
  pub text : String
  pub is_ip4 : Bool

-- An address of an interface, with what the loop tests.
pub record Interface : Type 0 where
  pub ip : Ip
  pub is_ip_net : Bool
  pub is_loopback : Bool

abbrev pub is_usable : Interface → Bool
is_usable a = a.is_ip_net && (not a.is_loopback && a.ip.is_ip4)

-- The loop, with the IP that is there before it.
unfoldable pub local_ip : Option Ip → List Interface → Option Ip
local_ip parsed [] = parsed
local_ip parsed (a ∷ more) =
    let rest = local_ip parsed more in if is_usable a then some a.ip else rest

abbrev pub ip_of : Result Ip → Option Ip
ip_of (err e) = none
ip_of (ok ip) = some ip

abbrev pub addresses_of : Result (List Interface) → List Interface
addresses_of (err e) = []
addresses_of (ok more) = more

abbrev pub is_err : {A : Type 0} → Result A → Bool
is_err (err e) = true
is_err (ok a) = false

-- Without an IP: if there was no error, the texts of a nil IP.
abbrev pub multiaddr : Bool → String → Option Ip → Go String
multiaddr failed port none = if failed then panics else returns ("/ip6/<nil>/tcp/" <> port)
multiaddr failed port (some ip) =
    returns ((if ip.is_ip4 then "/ip4/" else "/ip6/") <> ip.text <> "/tcp/" <> port)

-- GetAdd, on the answers of ExternalIP and InterfaceAddrs.
unfoldable pub get_add : Result Ip → Result (List Interface) → String → String → Go String
unfolding local_ip
get_add external interfaces port is_local =
    let parsed = local_ip (ip_of external) (addresses_of interfaces) in
    if is_local == "1"
    then multiaddr (is_err external || is_err interfaces) port parsed
    else multiaddr (is_err external) port (ip_of external)

local_ip_first :
    (parsed : Option Ip) (before after : List Interface) (a : Interface)
    → All (λ b. is_usable b ≡ false) before
    → is_usable a ≡ true
    → local_ip parsed (before ++ (a ∷ after)) ≡ some a.ip
unfolding local_ip
local_ip_first parsed [] after a h u = rw u refl
local_ip_first parsed (b ∷ before) after a h u = rw h.0 (local_ip_first parsed before after a h.1 u)

-- In a local net, the address is that of the first IPv4 address of an interface that is not a
-- loopback, whether the external address is found or not.
pub get_add_local :
    (external : Result Ip) (before after : List Interface) (a : Interface) (port : String)
    → All (λ b. is_usable b ≡ false) before
    → is_usable a ≡ true
    → get_add external (ok (before ++ (a ∷ after))) port "1"
      ≡ returns ("/ip4/" <> a.ip.text <> "/tcp/" <> port)
unfolding get_add
get_add_local external before after a port h u =
    rw (local_ip_first (ip_of external) before after a h u, is_ip4) refl
  where
    is_ip4 : a.ip.is_ip4 ≡ true
    is_ip4 = ground (arith, u)

-- What GetHost and GetMultiAddr call of libp2p and of multiaddr, whose addresses are texts here.
pub record HostTools (Env PrivKey : Type 0) : Type 1 where
  pub Host : Type 0
  pub new_host : String → PrivKey → Env → Result Host × Env
  pub addrs : Host → List String
  pub id : Host → String
  pub new_multiaddr : String → Result String
  pub encapsulate : String → String → String

module _ {Env PrivKey : Type 0} (t : HostTools Env PrivKey) where
  unfoldable pub get_host : PrivKey → String → Env → Result t.Host × Env
  get_host prv_key add w = t.new_host add prv_key w

  abbrev pub encapsulated : String → Result String → Go String
  encapsulated addr (err e) = panics
  encapsulated addr (ok ipfs_addr) = returns (t.encapsulate addr ipfs_addr)

  abbrev pub with_addrs : t.Host → List String → Go String
  with_addrs h [] = panics
  with_addrs h (addr ∷ more) = encapsulated addr (t.new_multiaddr ("/ipfs/" <> t.id h))

  unfoldable pub get_multi_addr : t.Host → Go String
  get_multi_addr h = with_addrs h (t.addrs h)

  -- Of a host with an address whose id makes a multiaddr, the multiaddr is the first address
  -- with that of the id.
  get_multi_addr_first :
      (h : t.Host) (addr ipfs_addr : String) (more : List String)
      → t.addrs h ≡ addr ∷ more
      → t.new_multiaddr ("/ipfs/" <> t.id h) ≡ ok ipfs_addr
      → get_multi_addr h ≡ returns (t.encapsulate addr ipfs_addr)
  unfolding get_multi_addr
  get_multi_addr_first h addr ipfs_addr more e e' = rw (e, e') refl
