-- ===== src/Server/Isolation.antt =====
-- handlers.go: what a message of one connection may change of another.
pub mod Publishing
pub mod Serving
use demedia_nostr.Prelude.{
  ℕ, String, Bool, true, false, ◌==◌, Option, none, some, List, [], ◌∷◌, ◌++◌, ◌≡◌, ◌≢◌, refl, ◌∙◌,
  sym, arith, ℤ, pos, int_beq, if◌then◌else◌, nat_eq, string_eq,
}
use demedia_nostr.Prelude.Map.{Map, lookup}
use demedia_nostr.Prelude.Go.{Go, returns, panics, blocks}
use demedia_nostr.Nostr.{
  Nostr, Event, Filter, Tag, Result, ok, err, Frame, Write, Error, dup_event, message,
}
use demedia_nostr.Server.{
  Server, Blob, Ipfs, World, M, continue, ◌>>=◌, ◌>>◌, pure, panic, of_go, outside, write_json,
  update_listeners, notify,
}
use demedia_nostr.Server.Events.{
  add_event, send_event, delete_event, fetch_event, finish_add, after_save, before_save,
  finish_send,
}
use demedia_nostr.Server.Media.{after_save_file, store_file, after_get, rehost_tag, rehost_tags}
use demedia_nostr.Server.Publish.{rehost}
use demedia_nostr.Storage.{AdvancedSaver, AdvancedDeleter, AdvancedQuerier}

-- The two worlds agree on the subscriptions of the connection and on its authentication.
unfoldable pub Agrees : {Env : Type 0} → ℕ → World Env → World Env → Type 0
Agrees other w w' =
    (lookup other w'.listeners ≡ lookup other w.listeners) × (w'.authed other ≡ w.authed other)

module _ {Env : Type 0} (other : ℕ) (w : World Env) where
  -- The code leaves the world in agreement with this one, if it is.
  abbrev pub Keeps : {A : Type 0} → M Env A → Type 0
  Keeps m = (w' : World Env) → Agrees other w w' → Agrees other w (m w').1

  pub Keeps-notify : (n : Nostr) (evt : Event) → Keeps (notify n evt)
  unfolding Agrees notify
  Keeps-notify n evt w' h = h

  pub Agrees-outside :
      (env : Env) (sent : List Write) (w' : World Env)
      → Agrees other w w'
      → Agrees other w (record w' { env = env; sent = sent })
  unfolding Agrees
  Agrees-outside env sent w' h = h

  pub Agrees-sent :
      (sent : List Write) (w' : World Env)
      → Agrees other w w'
      → Agrees other w (record w' { sent = sent })
  unfolding Agrees
  Agrees-sent sent w' h = h

  -- The rest of a function, on what its first step ends with.
  pub Keeps-continue :
      {A B : Type 0} (f : A → M Env B) (r : Go A × World Env)
      → Agrees other w r.1
      → ((a : A) → Keeps (f a))
      → Agrees other w (continue f r).1
  Keeps-continue f (returns a, w') h k = k a w' h
  Keeps-continue f (panics, w') h k = h
  Keeps-continue f (blocks, w') h k = h

  pub Keeps-if :
      {A : Type 0} (b : Bool) (m k : M Env A) (w' : World Env)
      → Agrees other w (m w').1
      → Agrees other w (k w').1
      → Agrees other w ((if b then m else k) w').1
  Keeps-if true m k w' h h' = h
  Keeps-if false m k w' h h' = h'

  pub ruleset keeping = (Keeps-if, Keeps-continue, Keeps-notify, Agrees-outside, Agrees-sent)
