-- ===== src/Listener/Validity.antt =====
-- The representation invariant of the nested map.
use demedia_nostr.Prelude.{ℕ, String, ◌≢◌, List, [], ◌∷◌, arith}
use demedia_nostr.Prelude.{inl, inr, Option-cases, nat_eq, string_eq}
use demedia_nostr.Prelude.Map.{
  Map, lookup, insert, erase, NodupKeys, insert-NodupKeys, AllValues, AllValues-lookup,
  AllValues-insert, AllValues-erase, erase-NodupKeys,
}
use demedia_nostr.Nostr.{Filter}
use demedia_nostr.Listener.Defs.{
  Listener, Listeners, set_listener, drop_if_empty, remove_listener_id, remove_listener,
}
use demedia_nostr.Listener.Refinement.{Op, set, remove_id, remove, apply, run}

abbrev pub IsKept : Map String Listener → Type 0
IsKept subs = NodupKeys subs × (subs ≢ [])

-- No key stands twice, outside and inside, and no connection is kept without a subscription.
pub record IsValid (listeners : Listeners) : Type 0 where
  pub nodup : NodupKeys listeners
  pub inner : AllValues IsKept listeners

insert-ne-nil : (id : String) (l : Listener) (subs : Map String Listener) → insert id l subs ≢ []
unfolding insert
insert-ne-nil id l [] e = cc
insert-ne-nil id l (s ∷ subs) e = ground arith

insert-IsValid :
    (ws : ℕ) (subs : Map String Listener) (listeners : Listeners)
    → IsValid listeners
    → NodupKeys subs
    → subs ≢ []
    → IsValid (insert ws subs listeners)
insert-IsValid ws subs listeners v u w = record {
  nodup = insert-NodupKeys ws subs listeners v.nodup;
  inner = AllValues-insert IsKept ws subs listeners v.inner (u, w);
}

erase-IsValid : (ws : ℕ) (listeners : Listeners) → IsValid listeners → IsValid (erase ws listeners)
erase-IsValid ws listeners v = record {
  nodup = erase-NodupKeys ws listeners v.nodup;
  inner = AllValues-erase IsKept ws listeners v.inner;
}

pub set_listener-IsValid :
    (id : String) (ws : ℕ) (fs : List Filter) (listeners : Listeners)
    → IsValid listeners
    → IsValid (set_listener id ws fs listeners)
unfolding set_listener
set_listener-IsValid id ws fs listeners v =
    let l : Listener = record { filters = fs } in
    elim (Option-cases (lookup ws listeners)) [
      | inl e ↦
          rw (e, set_listener)
            (insert-IsValid ws (insert id l []) listeners v (insert-NodupKeys id l [] tt)
              (insert-ne-nil id l []))
      | inr (subs, e) ↦
          rw (e, set_listener)
            (insert-IsValid ws (insert id l subs) listeners v
              (insert-NodupKeys id l subs (AllValues-lookup IsKept ws listeners v.inner e).0)
              (insert-ne-nil id l subs))
    ]

drop_if_empty-IsValid :
    (ws : ℕ) (subs : Map String Listener) (listeners : Listeners)
    → IsValid listeners
    → NodupKeys subs
    → IsValid (drop_if_empty ws subs listeners)
drop_if_empty-IsValid ws [] listeners v u = erase-IsValid ws listeners v
drop_if_empty-IsValid ws (s ∷ subs) listeners v u =
    insert-IsValid ws (s ∷ subs) listeners v u (λ e. cc)

remove_listener_id-IsValid :
    (ws : ℕ) (id : String) (listeners : Listeners)
    → IsValid listeners
    → IsValid (remove_listener_id ws id listeners)
unfolding remove_listener_id
remove_listener_id-IsValid ws id listeners v = elim (Option-cases (lookup ws listeners)) [
  | inl e ↦ rw (e, remove_listener_id) v
  | inr (subs, e) ↦
      rw (e, remove_listener_id)
        (drop_if_empty-IsValid ws (erase id subs) listeners v
          (erase-NodupKeys id subs (AllValues-lookup IsKept ws listeners v.inner e).0))
]

remove_listener-IsValid :
    (ws : ℕ) (listeners : Listeners) → IsValid listeners → IsValid (remove_listener ws listeners)
unfolding remove_listener
remove_listener-IsValid ws listeners v = elim (Option-cases (lookup ws listeners)) [
  | inl e ↦ rw (e, remove_listener) v
  | inr (subs, e) ↦ rw (e, remove_listener) (erase-IsValid ws listeners v)
]

apply-IsValid : (op : Op) (listeners : Listeners) → IsValid listeners → IsValid (apply op listeners)
unfolding apply
apply-IsValid (set id ws fs) listeners = set_listener-IsValid id ws fs listeners
apply-IsValid (remove_id ws id) listeners = remove_listener_id-IsValid ws id listeners
apply-IsValid (remove ws) listeners = remove_listener-IsValid ws listeners

run_keeps :
    (ops : List Op) (listeners : Listeners) → IsValid listeners → IsValid (run ops listeners)
unfolding run
run_keeps [] listeners v = v
run_keeps (op ∷ ops) listeners v = run_keeps ops (apply op listeners) (apply-IsValid op listeners v)

empty-IsValid : IsValid []
unfolding lookup
empty-IsValid = record { nodup = tt; inner = tt }

-- Whatever calls are made from the empty listeners on, no connection and no subscription id of a
-- connection stands twice, and no connection is kept without a subscription.
pub run-IsValid : (ops : List Op) → IsValid (run ops [])
run-IsValid ops = run_keeps ops [] empty-IsValid
