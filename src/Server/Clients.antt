-- ===== src/Server/Clients.antt =====
-- start.go and handlers.go: the map of clients, and what becomes of the listeners when a
-- connection ends. A connection and its WebSocket are one address.
use demedia_nostr.Prelude.{
  ℕ, Bool, true, false, ◌&&◌, Option, none, some, List, [], ◌∷◌, ◌≡◌, refl, arith, nat_beq,
  nat_beq_iff, if◌then◌else◌, nat_eq, Option-cases, inl, inr,
}
use demedia_nostr.Prelude.Map.{Map, lookup, insert, erase, lookup-erase}
use demedia_nostr.Listener.{Listeners, remove_listener}

pub record Connections : Type 0 where
  pub clients : Map ℕ (Unit {0})
  pub listeners : Listeners

-- s.clients[conn] = struct{}{}
unfoldable pub connect : ℕ → Connections → Connections
connect ws c = record c { clients = insert ws tt c.clients }

-- The deferred function of the reader.
unfoldable pub clean_up : ℕ → Connections → Connections
clean_up ws c = elim (lookup ws c.clients) [
  | none ↦ c
  | some _ ↦ record { clients = erase ws c.clients; listeners = remove_listener ws c.listeners }
]

-- The loop of disconnectAllClients, over the clients that it finds.
unfoldable pub delete_clients : Map ℕ (Unit {0}) → Map ℕ (Unit {0}) → Map ℕ (Unit {0})
delete_clients [] clients = clients
delete_clients ((ws, _) ∷ more) clients = delete_clients more (erase ws clients)

unfoldable pub disconnect_all_clients : Connections → Connections
unfolding delete_clients
disconnect_all_clients c = record c { clients = delete_clients c.clients c.clients }

-- The readers end one after another.
unfoldable pub clean_up_all : List ℕ → Connections → Connections
unfolding clean_up
clean_up_all [] c = c
clean_up_all (ws ∷ wss) c = clean_up_all wss (clean_up ws c)

abbrev pub is_client : Option (Unit {0}) → Bool
is_client none = false
is_client (some _) = true

-- When the reader of a connection ends, the connection's listeners are removed exactly if the
-- connection is among the clients, and those of every other connection stay.
pub lookup-clean_up :
    (ws other : ℕ) (c : Connections)
    → lookup other (clean_up ws c).listeners ≡ (
        if is_client (lookup ws c.clients) && nat_beq ws other
        then none
        else lookup other c.listeners)
unfolding clean_up remove_listener
lookup-clean_up ws other c = elim (Option-cases (lookup ws c.clients)) [
  | inl p ↦ rw (clean_up, p) refl
  | inr (u, p) ↦
      rw (clean_up, p)
        (elim (Option-cases (lookup ws c.listeners)) [
          | inl q ↦ ground (arith, q, nat_beq_iff ws other)
          | inr (l, q) ↦ ground (arith, q, nat_beq_iff ws other, lookup-erase other ws c.listeners)
        ])
]

lookup-delete_clients-none :
    (ws : ℕ) (more clients : Map ℕ (Unit {0}))
    → lookup ws clients ≡ none
    → lookup ws (delete_clients more clients) ≡ none
unfolding delete_clients
lookup-delete_clients-none ws [] clients h = h
lookup-delete_clients-none ws ((x, _) ∷ more) clients h =
    lookup-delete_clients-none ws more (erase x clients)
      (ground (arith, h, lookup-erase ws x clients))

pub lookup-delete_clients :
    (ws : ℕ) (more clients : Map ℕ (Unit {0}))
    → lookup ws more ≡ lookup ws clients
    → lookup ws (delete_clients more clients) ≡ none
unfolding delete_clients lookup
lookup-delete_clients ws [] clients h = ground (arith, h)
lookup-delete_clients ws ((x, _) ∷ more) clients h = ground (
  arith,
  h,
  lookup-erase ws x clients,
  lookup-delete_clients ws more (erase x clients),
  lookup-delete_clients-none ws more (erase x clients),
)

clean_up_all-none :
    (wss : List ℕ) (c : Connections)
    → ((ws : ℕ) → lookup ws c.clients ≡ none)
    → clean_up_all wss c ≡ c
unfolding clean_up_all
clean_up_all-none [] c h = refl
clean_up_all-none (ws ∷ wss) c h = rw (clean_up, h ws) (clean_up_all-none wss c h)

-- After disconnectAllClients, no reader that ends, in whatever order they do, removes a listener:
-- the listeners stay as they were.
pub clean_up_all-disconnect_all_clients :
    (wss : List ℕ) (c : Connections)
    → (clean_up_all wss (disconnect_all_clients c)).listeners ≡ c.listeners
unfolding disconnect_all_clients
clean_up_all-disconnect_all_clients wss c =
    rw
      (clean_up_all-none wss (disconnect_all_clients c)
        (λ ws. lookup-delete_clients ws c.clients c.clients refl))
      refl
