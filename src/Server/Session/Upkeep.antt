-- ===== src/Server/Session/Upkeep.antt =====
-- handleWebsocket: what holds of every connection at any time.
use mathlib.Core.Path.{subst}
use demedia_nostr.Prelude.{
  ℕ, String, Bool, true, false, List, ◌≡◌, refl, nat_beq, nat_beq_iff, nat_eq, if◌then◌else◌, arith,
  Bool-cases, inl, inr, Option-cases,
}
use demedia_nostr.Prelude.Map.{Map, lookup, lookup-insert, lookup-erase}
use demedia_nostr.Server.{Server, World}
use demedia_nostr.Server.Clients.{
  Connections, is_client, connect, clean_up, disconnect_all_clients, delete_clients,
  lookup-delete_clients,
}
use demedia_nostr.Server.Session.{
  Reader, absent, starting, reading, ended, waiting, Session, no_session, new_session, update, Net,
  connections, end_reader, close_clients, Step, upgrade, start, read, pong, handle, stop, tick,
  ping, fail_ping, shut_down, Steps, done, later, initial,
}

abbrev pub is_active : Reader → Bool
is_active absent = false
is_active starting = true
is_active reading = true
is_active ended = false

-- A connection with this session, which is a client or not.
pub record IsUpkept (client : Bool) (s : Session) : Type 0 where
  pub open_client : s.is_open ≡ true → client ≡ true
  pub client_active : client ≡ true → is_active s.reader ≡ true
  pub ticking_active : s.ticking ≡ true → is_active s.reader ≡ true
  pub ticking_waiting : s.ticking ≡ true → s.writer ≡ waiting

abbrev pub AllUpkept : Map ℕ (Unit {0}) → (ℕ → Session) → Type 0
AllUpkept clients sessions = (ws : ℕ) → IsUpkept (is_client (lookup ws clients)) (sessions ws)

AllUpkept-update :
    (clients clients' : Map ℕ (Unit {0})) (sessions : ℕ → Session) (ws : ℕ) (s : Session)
    → AllUpkept clients sessions
    → ((other : ℕ)
        → nat_beq ws other ≡ false
        → is_client (lookup other clients') ≡ is_client (lookup other clients))
    → IsUpkept (is_client (lookup ws clients')) s
    → AllUpkept clients' (update sessions ws s)
AllUpkept-update clients clients' sessions ws s all same h other =
    elim (Bool-cases (nat_beq ws other)) [
      | inl b ↦
          subst (λ x. IsUpkept (is_client (lookup x clients')) (update sessions ws s x))
            ((nat_beq_iff ws other).0 b) (rw ((nat_beq_iff ws ws).1 refl) h)
      | inr b ↦ rw (b, same other b) (all other)
    ]

-- What only the messages and the ticks of a connection change.
touched :
    {client : Bool} {s : Session}
    → IsUpkept client s
    → (t : Bool) (messages : List String)
    → IsUpkept client (record s { has_tick = t; in_flight = messages })
touched h t messages = record {
  open_client = h.open_client;
  client_active = h.client_active;
  ticking_active = h.ticking_active;
  ticking_waiting = h.ticking_waiting;
}

closed :
    (client : Bool) (s : Session)
    → IsUpkept client s
    → IsUpkept false (if client then record s { is_open = false } else s)
closed true s h = record {
  open_client = λ o. o;
  client_active = λ c. absurd (ground (arith, c));
  ticking_active = h.ticking_active;
  ticking_waiting = h.ticking_waiting;
}
closed false s h = h

-- A step of one connection.
upkept_own :
    (clients : Map ℕ (Unit {0})) (sessions : ℕ → Session) (ws : ℕ) (s : Session)
    → AllUpkept clients sessions
    → IsUpkept (is_client (lookup ws clients)) s
    → AllUpkept clients (update sessions ws s)
upkept_own clients sessions ws s all h =
    AllUpkept-update clients clients sessions ws s all (λ other b. refl) h

none_upkept : IsUpkept false no_session
none_upkept = record {
  open_client = λ o. o;
  client_active = λ c. c;
  ticking_active = λ t. t;
  ticking_waiting = λ t. absurd (ground (arith, t));
}

all_closed :
    (clients : Map ℕ (Unit {0})) (sessions : ℕ → Session)
    → AllUpkept clients sessions
    → AllUpkept (delete_clients clients clients) (close_clients clients sessions)
all_closed clients sessions h ws =
    rw (lookup-delete_clients ws clients clients refl)
      (closed (is_client (lookup ws clients)) (sessions ws) (h ws))

pub beq_refl : (a : ℕ) → nat_beq a a ≡ true
beq_refl a = (nat_beq_iff a a).1 refl

lookup-connect :
    (ws other : ℕ) (c : Connections)
    → is_client (lookup other (connect ws c).clients)
      ≡ (if nat_beq ws other then true else is_client (lookup other c.clients))
unfolding connect
lookup-connect ws other c = ground (arith, lookup-insert other ws tt c.clients)

lookup-clients-clean_up :
    (ws other : ℕ) (c : Connections)
    → is_client (lookup other (clean_up ws c).clients)
      ≡ (if nat_beq ws other then false else is_client (lookup other c.clients))
unfolding clean_up
lookup-clients-clean_up ws other c = elim (Option-cases (lookup ws c.clients)) [
  | inl p ↦ rw (clean_up, p) (ground (arith, p, nat_beq_iff ws other))
  | inr (u, p) ↦ rw (clean_up, p) (ground (arith, lookup-erase other ws c.clients))
]

module _ {Env : Type 0} (s : Server Env) (carrier : Map String String) where
  step_upkept :
      {n m : Net Env}
      → AllUpkept n.clients n.sessions
      → Step s carrier n m
      → AllUpkept m.clients m.sessions
  unfolding disconnect_all_clients
  step_upkept {n} h (upgrade ws challenge a) =
      AllUpkept-update n.clients _ n.sessions ws (new_session challenge) h
        (λ other b. rw (lookup-connect ws other (connections n), b) refl)
        (rw (lookup-connect ws ws (connections n), beq_refl ws)
          record {
            open_client = λ o. refl;
            client_active = λ c. refl;
            ticking_active = λ t. refl;
            ticking_waiting = λ t. refl;
          })
  step_upkept {n} h (start ws r) = upkept_own n.clients n.sessions ws _ h record {
    open_client = (h ws).open_client;
    client_active = λ c. refl;
    ticking_active = λ t. refl;
    ticking_waiting = (h ws).ticking_waiting;
  }
  step_upkept {n} h (read ws m r o) = upkept_own n.clients n.sessions ws _ h (touched (h ws) _ _)
  step_upkept {n} h (pong ws r o) = h
  step_upkept {n} h (handle ws m before after w p q) =
      upkept_own n.clients n.sessions ws _ h (touched (h ws) _ _)
  step_upkept {n} h (stop ws r) =
      AllUpkept-update n.clients _ n.sessions ws
        (end_reader (is_client (lookup ws n.clients)) (n.sessions ws)) h
        (λ other b. rw (lookup-clients-clean_up ws other (connections n), b) refl)
        (rw (lookup-clients-clean_up ws ws (connections n), beq_refl ws)
          record {
            open_client = λ o. ground (arith, o, (h ws).open_client);
            client_active = λ c. absurd (ground (arith, c));
            ticking_active = λ t. absurd (ground (arith, t));
            ticking_waiting = λ t. absurd (ground (arith, t));
          })
  step_upkept {n} h (tick ws t) = upkept_own n.clients n.sessions ws _ h (touched (h ws) _ _)
  step_upkept {n} h (ping ws w t o) = upkept_own n.clients n.sessions ws _ h (touched (h ws) _ _)
  step_upkept {n} h (fail_ping ws w t) = upkept_own n.clients n.sessions ws _ h record {
    open_client = λ o. absurd (ground (arith, o));
    client_active = (h ws).client_active;
    ticking_active = λ u. absurd (ground (arith, u));
    ticking_waiting = λ u. absurd (ground (arith, u));
  }
  step_upkept {n} h shut_down = λ ws. all_closed n.clients n.sessions h ws

  pub steps_upkept :
      (w : World Env) (n : Net Env) → Steps s carrier (initial w) n → AllUpkept n.clients n.sessions
  unfolding lookup
  steps_upkept w n done = λ ws. none_upkept
  steps_upkept w n (later ss st) = step_upkept (steps_upkept w _ ss) st

  -- At any time, a connection whose reader has ended is closed and not among the clients, and its
  -- ticker does not run.
  pub ended_connection :
      (w : World Env) (n : Net Env) (ws : ℕ)
      → Steps s carrier (initial w) n
      → (n.sessions ws).reader ≡ ended
      → ((n.sessions ws).is_open ≡ false)
        × (is_client (lookup ws n.clients) ≡ false)
        × ((n.sessions ws).ticking ≡ false)
  ended_connection w n ws ss e =
      let h = steps_upkept w n ss ws in
      ground (arith, e, h.open_client, h.client_active, h.ticking_active)
