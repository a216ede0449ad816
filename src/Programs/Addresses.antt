-- ===== src/Programs/Addresses.antt =====
-- host/host.go and port/port.go as the main functions call them.
use demedia_nostr.Prelude.{ℕ, ◌+◌, ◌≤◌, ◌<◌, String, List, [], ◌==◌, arith, if◌then◌else◌}
use demedia_nostr.Nostr.{Result, ok}
use demedia_nostr.Keys.{Ip, Interface, get_add}
use demedia_nostr.Programs.Exiting.{Program, ◌>>=◌, does, may_panic}

-- GetAdd, which asks for the addresses of the interfaces only in a local net.
unfoldable pub find_add :
    {Env : Type 0}
    → (Env → Result Ip × Env)
    → (Env → Result (List Interface) × Env)
    → String
    → String
    → Program Env String
find_add external_ip interface_addrs port is_local = do
  external ← does external_ip
  interfaces ← if is_local == "1" then does interface_addrs else does (λ w. (ok [], w))
  may_panic (λ w. (get_add external interfaces port is_local, w))

-- GetTargetAddressPort, on rand.Intn.
unfoldable pub get_target_address_port : {Env : Type 0} → (ℕ → Env → ℕ × Env) → Env → ℕ × Env
get_target_address_port intn w = let r = intn 1000 w in (r.0 + 10000, r.1)

-- If rand.Intn returns a number below its argument, the port is from 10000 to 10999.
get_target_address_port_bounds :
    {Env : Type 0} (intn : ℕ → Env → ℕ × Env) (w : Env)
    → ((n : ℕ) (v : Env) → 0 < n → (intn n v).0 < n)
    → (10000 ≤ (get_target_address_port intn w).0) × ((get_target_address_port intn w).0 < 11000)
unfolding get_target_address_port
get_target_address_port_bounds intn w h = (omega arith, omega (arith, h 1000 w (omega arith)))
