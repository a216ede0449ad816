-- ===== src/Listener/Refinement.antt =====
-- The nested map is a map from pairs of a connection and a subscription id to filters.
use demedia_nostr.Prelude.{
  ℕ, String, ◌≡◌, refl, ap, ◌∙◌, Option, none, some, List, [], ◌∷◌, arith, ◌&&◌, inl, inr,
  Option-cases,
}
use demedia_nostr.Prelude.{if◌then◌else◌, nat_eq, string_eq, nat_beq, nat_beq_iff, ◌==◌}
use demedia_nostr.Prelude.Map.{Map, lookup, insert, erase, lookup-insert, lookup-erase}
use demedia_nostr.Nostr.{Filter}
use demedia_nostr.Listener.Defs.{
  Listener, Listeners, set_listener, drop_if_empty, remove_listener_id, remove_listener,
}

abbrev pub filters_of : Option Listener → Option (List Filter)
filters_of none = none
filters_of (some l) = some l.filters

abbrev pub in_subs : String → Option (Map String Listener) → Option (List Filter)
in_subs id none = none
in_subs id (some subs) = filters_of (lookup id subs)

-- The filters under which a connection has a subscription id.
unfoldable pub subscription : Listeners → ℕ → String → Option (List Filter)
subscription listeners ws id = in_subs id (lookup ws listeners)

module _ (listeners : Listeners) (ws : ℕ) where
  pub subscription-set :
      (id : String) (fs : List Filter) (ws' : ℕ) (id' : String)
      → subscription (set_listener id ws fs listeners) ws' id'
        ≡ (if nat_beq ws ws' && id == id' then some fs else subscription listeners ws' id')
  unfolding subscription set_listener lookup insert
  subscription-set id fs ws' id' = elim (Option-cases (lookup ws listeners)) [
    | inl e ↦
        let l : Listener = record { filters = fs } in
        ground (
          arith,
          e,
          nat_beq_iff ws ws',
          lookup-insert ws' ws (insert id l []) listeners,
          lookup-insert id' id l [],
        )
    | inr (subs, e) ↦
        let l : Listener = record { filters = fs } in
        ground (
          arith,
          e,
          nat_beq_iff ws ws',
          lookup-insert ws' ws (insert id l subs) listeners,
          lookup-insert id' id l subs,
        )
  ]

  lookup-drop_if_empty :
      (subs : Map String Listener) (ws' : ℕ) (id' : String)
      → in_subs id' (lookup ws' (drop_if_empty ws subs listeners))
        ≡ (if nat_beq ws ws' then filters_of (lookup id' subs) else subscription listeners ws' id')
  unfolding subscription lookup
  lookup-drop_if_empty [] ws' id' = ground (arith, lookup-erase ws' ws listeners)
  lookup-drop_if_empty (s ∷ subs) ws' id' =
      ground (arith, lookup-insert ws' ws (s ∷ subs) listeners)

  pub subscription-remove_id :
      (id : String) (ws' : ℕ) (id' : String)
      → subscription (remove_listener_id ws id listeners) ws' id'
        ≡ (if nat_beq ws ws' && id == id' then none else subscription listeners ws' id')
  unfolding subscription remove_listener_id
  subscription-remove_id id ws' id' = elim (Option-cases (lookup ws listeners)) [
    | inl e ↦ ground (arith, e, nat_beq_iff ws ws')
    | inr (subs, e) ↦ ground (
      arith,
      e,
      nat_beq_iff ws ws',
      lookup-drop_if_empty (erase id subs) ws' id',
      lookup-erase id' id subs,
    )
  ]

  pub subscription-remove :
      (ws' : ℕ) (id' : String)
      → subscription (remove_listener ws listeners) ws' id'
        ≡ (if nat_beq ws ws' then none else subscription listeners ws' id')
  unfolding subscription remove_listener
  subscription-remove ws' id' = ground (arith, lookup-erase ws' ws listeners, nat_beq_iff ws ws')

-- A call of one of the three functions that change the listeners.
pub data Op : Type 0 where
  set : String → ℕ → List Filter → Op
  remove_id : ℕ → String → Op
  remove : ℕ → Op

unfoldable pub apply : Op → Listeners → Listeners
apply (set id ws fs) listeners = set_listener id ws fs listeners
apply (remove_id ws id) listeners = remove_listener_id ws id listeners
apply (remove ws) listeners = remove_listener ws listeners

-- The calls in the order in which they take the mutex.
unfoldable pub run : List Op → Listeners → Listeners
unfolding apply
run [] listeners = listeners
run (op ∷ ops) listeners = run ops (apply op listeners)

-- What the calls promise, on a map from pairs.
abbrev pub Subscriptions : Type 0
Subscriptions = ℕ → String → Option (List Filter)

unfoldable pub promised : Op → Subscriptions → Subscriptions
promised (set id ws fs) m ws' id' = if nat_beq ws ws' && id == id' then some fs else m ws' id'
promised (remove_id ws id) m ws' id' = if nat_beq ws ws' && id == id' then none else m ws' id'
promised (remove ws) m ws' id' = if nat_beq ws ws' then none else m ws' id'

unfoldable pub run_promised : List Op → Subscriptions → Subscriptions
run_promised [] m = m
run_promised (op ∷ ops) m = run_promised ops (promised op m)

pub subscription-apply :
    (op : Op) (listeners : Listeners)
    → subscription (apply op listeners) ≡ promised op (subscription listeners)
unfolding apply promised
subscription-apply (set id ws fs) l = λ i ws' id'. subscription-set l ws id fs ws' id' i
subscription-apply (remove_id ws id) l = λ i ws' id'. subscription-remove_id l ws id ws' id' i
subscription-apply (remove ws) l = λ i ws' id'. subscription-remove l ws ws' id' i

-- After any sequence of calls, from any listeners, the filters of every pair of a connection and
-- a subscription id are those that the same calls leave in a plain map from pairs to filters,
-- which overwrites on a set, and drops one pair or all pairs of a connection on a removal.
pub subscription-run :
    (ops : List Op) (listeners : Listeners)
    → subscription (run ops listeners) ≡ run_promised ops (subscription listeners)
unfolding run run_promised
subscription-run [] listeners = refl
subscription-run (op ∷ ops) listeners =
    subscription-run ops (apply op listeners)
    ∙ ap (run_promised ops) (subscription-apply op listeners)
