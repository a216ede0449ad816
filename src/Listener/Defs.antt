-- ===== src/Listener/Defs.antt =====
-- The operations of relayer/listener.go. A *WebSocket is known by its address, a number.
use demedia_nostr.Prelude.{ℕ, String, none, some, List, [], ◌∷◌, ◌++◌, any}
use demedia_nostr.Prelude.{if◌then◌else◌, nat_eq, string_eq}
use demedia_nostr.Prelude.Map.{Map, lookup, insert, erase}
use demedia_nostr.Nostr.{Event, Filter, Nostr, Frame, Write}

pub record Listener : Type 0 where
  pub filters : List Filter

abbrev pub Listeners : Type 0
Listeners = Map ℕ (Map String Listener)

unfoldable pub set_listener : String → ℕ → List Filter → Listeners → Listeners
set_listener id ws filters listeners =
    let listener : Listener = record { filters = filters } in
    elim (lookup ws listeners) [
      | none ↦ insert ws (insert id listener []) listeners
      | some subs ↦ insert ws (insert id listener subs) listeners
    ]

-- The test `len(subs) == 0`, made after the deletion.
abbrev pub drop_if_empty : ℕ → Map String Listener → Listeners → Listeners
drop_if_empty ws [] listeners = erase ws listeners
drop_if_empty ws (s ∷ subs) listeners = insert ws (s ∷ subs) listeners

unfoldable pub remove_listener_id : ℕ → String → Listeners → Listeners
remove_listener_id ws id listeners = elim (lookup ws listeners) [
  | none ↦ listeners
  | some subs ↦ drop_if_empty ws (erase id subs) listeners
]

unfoldable pub remove_listener : ℕ → Listeners → Listeners
remove_listener ws listeners = elim (lookup ws listeners) [
  | none ↦ listeners
  | some _ ↦ erase ws listeners
]

module _ (n : Nostr) where
  unfoldable pub notify_subs : Event → ℕ → Map String Listener → List Write
  notify_subs evt ws [] = []
  notify_subs evt ws ((id, listener) ∷ subs) =
      let rest = notify_subs evt ws subs in
      if n.filters_match listener.filters evt
      then record { ws = ws; frame = Frame.event id evt } ∷ rest
      else rest

  -- The writes in the order in which the two loops make them.
  unfoldable pub notify_listeners : Event → Listeners → List Write
  notify_listeners evt [] = []
  notify_listeners evt ((ws, subs) ∷ listeners) =
      notify_subs evt ws subs ++ notify_listeners evt listeners

  -- The innermost loop of GetListeningFilters: a filter that is not there yet is appended.
  unfoldable pub add_filter : List Filter → Filter → List Filter
  add_filter respfilters f =
      if any (n.filter_equal f) respfilters then respfilters else respfilters ++ (f ∷ [])

  unfoldable pub add_filters : List Filter → List Filter → List Filter
  unfolding add_filter
  add_filters respfilters [] = respfilters
  add_filters respfilters (f ∷ fs) = add_filters (add_filter respfilters f) fs

  -- All filters of all listeners, in the order of the loops.
  unfoldable pub subs_filters : Map String Listener → List Filter
  subs_filters [] = []
  subs_filters ((id, listener) ∷ subs) = listener.filters ++ subs_filters subs

  unfoldable pub listener_filters : Listeners → List Filter
  listener_filters [] = []
  listener_filters ((ws, subs) ∷ listeners) = subs_filters subs ++ listener_filters listeners

  unfoldable pub add_subs : List Filter → Map String Listener → List Filter
  add_subs respfilters [] = respfilters
  add_subs respfilters ((id, listener) ∷ subs) =
      add_subs (add_filters respfilters listener.filters) subs

  unfoldable pub add_listeners : List Filter → Listeners → List Filter
  add_listeners respfilters [] = respfilters
  add_listeners respfilters ((ws, subs) ∷ listeners) =
      add_listeners (add_subs respfilters subs) listeners

  unfoldable pub get_listening_filters : Listeners → List Filter
  unfolding add_listeners add_subs
  get_listening_filters listeners = add_listeners [] listeners
