-- ===== src/Server/Session/Ended.antt =====
-- handleWebsocket: what becomes of a connection whose reader has ended.
use demedia_nostr.Prelude.{
  ℕ, String, true, false, none, List, [], ◌∷◌, ◌++◌, ◌≡◌, ◌≢◌, refl, sym, ◌∙◌, ap, nat_beq,
  nat_beq_iff, nat_eq, arith, Bool-cases, inl, inr, Option-cases,
}
use demedia_nostr.Prelude.Map.{Map, lookup}
use demedia_nostr.Server.{Server, World}
use demedia_nostr.Server.Clients.{is_client, connect, disconnect_all_clients, lookup-clean_up}
use demedia_nostr.Server.Isolation.Serving.{handle_message-Agrees}
use demedia_nostr.Server.Session.Upkeep.{beq_refl, ended_connection}
use demedia_nostr.Server.Session.{
  ended, waiting, Session, update, Net, connections, stopped, initial, greet, Step, upgrade, start,
  read, pong, handle, stop, tick, ping, fail_ping, shut_down, Steps, done, later,
}

update_holds :
    (P : Session → Type 0) (sessions : ℕ → Session) (a : ℕ) (s : Session) (ws : ℕ)
    → P (sessions ws)
    → (a ≡ ws → P s)
    → P (update sessions a s ws)
update_holds P sessions a s ws h k = elim (Bool-cases (nat_beq a ws)) [
  | inl b ↦ rw b (k ((nat_beq_iff a ws).0 b))
  | inr b ↦ rw b h
]

not_quiet : (m : String) (before after : List String) → before ++ (m ∷ after) ≢ []
not_quiet m [] after h = ground (arith, h)
not_quiet m (b ∷ before) after h = ground (arith, h)

module _ {Env : Type 0} (s : Server Env) (carrier : Map String String) (ws : ℕ) where
  -- The reader has ended, and the writer waits for a tick that the ticker does not give.
  unfoldable IsStranded : Session → Type 0
  IsStranded t =
      (t.reader ≡ ended) × (t.writer ≡ waiting) × (t.ticking ≡ false) × (t.has_tick ≡ false)

  step-IsStranded :
      {n m : Net Env} → IsStranded (n.sessions ws) → Step s carrier n m → IsStranded (m.sessions ws)
  unfolding IsStranded
  step-IsStranded {n} h (upgrade a challenge r) =
      update_holds IsStranded n.sessions a _ ws h (λ e. ground (arith, e, ap n.sessions e, h, r))
  step-IsStranded {n} h (start a r) =
      update_holds IsStranded n.sessions a _ ws h (λ e. ground (arith, e, ap n.sessions e, h, r))
  step-IsStranded {n} h (read a m r o) =
      update_holds IsStranded n.sessions a _ ws h (λ e. ground (arith, e, ap n.sessions e, h, r))
  step-IsStranded {n} h (pong a r o) = h
  step-IsStranded {n} h (handle a m before after w p q) =
      update_holds IsStranded n.sessions a _ ws h (λ e. ground (arith, e, ap n.sessions e, h))
  step-IsStranded {n} h (stop a r) =
      update_holds IsStranded n.sessions a _ ws h (λ e. ground (arith, e, ap n.sessions e, h, r))
  step-IsStranded {n} h (tick a t) =
      update_holds IsStranded n.sessions a _ ws h (λ e. ground (arith, e, ap n.sessions e, h, t))
  step-IsStranded {n} h (ping a w t o) =
      update_holds IsStranded n.sessions a _ ws h (λ e. ground (arith, e, ap n.sessions e, h, t))
  step-IsStranded {n} h (fail_ping a w t) =
      update_holds IsStranded n.sessions a _ ws h (λ e. ground (arith, e, ap n.sessions e, h, t))
  step-IsStranded {n} h shut_down = ground (arith, h)

  steps-IsStranded :
      {n m : Net Env}
      → IsStranded (n.sessions ws)
      → Steps s carrier n m
      → IsStranded (m.sessions ws)
  steps-IsStranded h done = h
  steps-IsStranded h (later ss st) = step-IsStranded (steps-IsStranded h ss) st

  -- If the reader of a connection has ended while its writer waits and no tick is there for it,
  -- then the writer waits ever after, and the reader has ended.
  pub writer_waits :
      (w : World Env) (n m : Net Env)
      → Steps s carrier (initial w) n
      → (n.sessions ws).reader ≡ ended
      → (n.sessions ws).writer ≡ waiting
      → (n.sessions ws).has_tick ≡ false
      → Steps s carrier n m
      → ((m.sessions ws).writer ≡ waiting) × ((m.sessions ws).reader ≡ ended)
  unfolding IsStranded
  writer_waits w n m start_ends r h t ss =
      let (_, _, off) = ended_connection s carrier w n ws start_ends r in
      let (p, q, _, _) = steps-IsStranded (r, h, off, t) ss in (q, p)

  -- The reader has ended, and no message of the connection is in flight.
  unfoldable IsQuiet : Session → Type 0
  IsQuiet t = (t.reader ≡ ended) × (t.in_flight ≡ [])

  step-IsQuiet :
      {n m : Net Env} → IsQuiet (n.sessions ws) → Step s carrier n m → IsQuiet (m.sessions ws)
  unfolding IsQuiet
  step-IsQuiet {n} h (upgrade a challenge r) =
      update_holds IsQuiet n.sessions a _ ws h (λ e. ground (arith, e, ap n.sessions e, h, r))
  step-IsQuiet {n} h (start a r) =
      update_holds IsQuiet n.sessions a _ ws h (λ e. ground (arith, e, ap n.sessions e, h, r))
  step-IsQuiet {n} h (read a m r o) =
      update_holds IsQuiet n.sessions a _ ws h (λ e. ground (arith, e, ap n.sessions e, h, r))
  step-IsQuiet {n} h (pong a r o) = h
  step-IsQuiet {n} h (handle a m before after w p q) =
      update_holds IsQuiet n.sessions a _ ws h (λ e.
        absurd (not_quiet m before after (sym p ∙ (ap (λ a. (n.sessions a).in_flight) e ∙ h.1))))
  step-IsQuiet {n} h (stop a r) =
      update_holds IsQuiet n.sessions a _ ws h (λ e. ground (arith, e, ap n.sessions e, h, r))
  step-IsQuiet {n} h (tick a t) =
      update_holds IsQuiet n.sessions a _ ws h (λ e. ground (arith, e, ap n.sessions e, h, t))
  step-IsQuiet {n} h (ping a w t o) =
      update_holds IsQuiet n.sessions a _ ws h (λ e. ground (arith, e, ap n.sessions e, h, t))
  step-IsQuiet {n} h (fail_ping a w t) =
      update_holds IsQuiet n.sessions a _ ws h (λ e. ground (arith, e, ap n.sessions e, h, t))
  step-IsQuiet {n} h shut_down = ground (arith, h)

  quiet : (t : Session) → t.reader ≡ ended → t.in_flight ≡ [] → IsQuiet t
  unfolding IsQuiet
  quiet t r q = (r, q)

  steps-IsQuiet :
      {n m : Net Env} → IsQuiet (n.sessions ws) → Steps s carrier n m → IsQuiet (m.sessions ws)
  steps-IsQuiet h done = h
  steps-IsQuiet h (later ss st) = step-IsQuiet (steps-IsQuiet h ss) st

  greet_listeners :
      (a : ℕ) (challenge : String) (w : World Env) → (greet s a challenge w).listeners ≡ w.listeners
  greet_listeners a challenge w = elim (Option-cases s.relay.auther) [
    | inl p ↦ rw p refl
    | inr (url, p) ↦ rw p refl
  ]

  step_listeners :
      {n m : Net Env}
      → IsQuiet (n.sessions ws)
      → Step s carrier n m
      → lookup ws m.world.listeners ≡ lookup ws n.world.listeners
  unfolding IsQuiet connect disconnect_all_clients
  step_listeners {n} h (upgrade a challenge r) = refl
  step_listeners {n} h (start a r) =
      ap (lookup ws) (greet_listeners a (n.sessions a).challenge n.world)
  step_listeners {n} h (read a m r o) = refl
  step_listeners {n} h (pong a r o) = refl
  step_listeners {n} h (handle a m before after w p q) =
      ap (λ (o : World Env). lookup ws o.listeners) (sym (ap (λ r. r.1) q))
      ∙ (handle_message-Agrees s carrier
          (record { address = a; challenge = (n.sessions a).challenge }) m ws n.world
          (λ e.
            absurd
              (not_quiet m before after (sym p ∙ (ap (λ a. (n.sessions a).in_flight) e ∙ h.1))))).0
  step_listeners {n} h (stop a r) =
      lookup-clean_up a ws (connections n) ∙ ground (arith, nat_beq_iff a ws, ap n.sessions, h, r)
  step_listeners {n} h (tick a t) = refl
  step_listeners {n} h (ping a w t o) = refl
  step_listeners {n} h (fail_ping a w t) = refl
  step_listeners {n} h shut_down = refl

  -- If the reader of a connection has ended and none of its messages is in flight, then the
  -- subscriptions of the connection that are there, or none, stay as they are ever after.
  pub subscriptions_stay :
      (n m : Net Env)
      → (n.sessions ws).reader ≡ ended
      → (n.sessions ws).in_flight ≡ []
      → Steps s carrier n m
      → lookup ws m.world.listeners ≡ lookup ws n.world.listeners
  subscriptions_stay n m r q done = refl
  subscriptions_stay n m r q (later ss st) =
      step_listeners (steps-IsQuiet (quiet _ r q) ss) st ∙ subscriptions_stay n _ r q ss

  -- If the reader of a client's connection ends while none of the connection's messages is in
  -- flight, then the connection has no subscription ever after.
  pub no_subscription :
      (n m : Net Env)
      → is_client (lookup ws n.clients) ≡ true
      → (n.sessions ws).in_flight ≡ []
      → Steps s carrier (stopped ws n) m
      → lookup ws m.world.listeners ≡ none
  no_subscription n m c q ss =
      subscriptions_stay _ m (ground (arith, beq_refl ws)) (ground (arith, beq_refl ws, q)) ss
      ∙ (lookup-clean_up ws ws (connections n) ∙ ground (arith, c, beq_refl ws))
