-- ===== src/Listener/Delivery.antt =====
-- notifyListeners delivers an event once to each subscription that it matches.
use demedia_nostr.Prelude.{
  ℕ, ◌+◌, String, ◌≡◌, refl, Bool, false, ◌&&◌, Option, none, some, List, [], ◌∷◌, ◌++◌, arith, All,
  All-append, nat_beq, nat_beq_iff, ◌==◌, eq_iff, if◌then◌else◌, inl, inr, Bool-cases, nat_eq,
  string_eq,
}
use demedia_nostr.Prelude.Map.{Map, lookup, NodupKeys, AllValues-lookup}
use demedia_nostr.Nostr.{Event, Filter, Nostr, Frame, Write}
use demedia_nostr.Listener.Defs.{Listener, Listeners, notify_subs, notify_listeners}
use demedia_nostr.Listener.Refinement.{filters_of, in_subs, subscription}
use demedia_nostr.Listener.Validity.{IsValid, IsKept}

-- How many of the writes carry an event to a subscription of a connection.
abbrev pub is_for : ℕ → String → Frame → ℕ → Bool
is_for ws id (Frame.event sub e) ws' = nat_beq ws' ws && sub == id
is_for ws id (Frame.auth _) ws' = false
is_for ws id (Frame.eose _) ws' = false
is_for ws id (Frame.accepted _ _ _) ws' = false
is_for ws id (Frame.notice _) ws' = false

unfoldable pub deliveries : ℕ → String → List Write → ℕ
deliveries ws id [] = 0
deliveries ws id (w ∷ writes) =
    (if is_for ws id w.frame w.ws then 1 else 0) + deliveries ws id writes

pub deliveries-append :
    (ws : ℕ) (id : String) (xs ys : List Write)
    → deliveries ws id (xs ++ ys) ≡ deliveries ws id xs + deliveries ws id ys
unfolding deliveries
deliveries-append ws id [] ys = omega arith
deliveries-append ws id (x ∷ xs) ys = omega (arith, deliveries-append ws id xs ys)

module _ (n : Nostr) (evt : Event) where
  -- 1 for filters that match the event, else 0
  abbrev pub due : Option (List Filter) → ℕ
  due none = 0
  due (some fs) = if n.filters_match fs evt then 1 else 0

  deliveries-notify_subs :
      (ws ws' : ℕ) (id : String) (subs : Map String Listener)
      → NodupKeys subs
      → deliveries ws id (notify_subs n evt ws' subs)
        ≡ (if nat_beq ws' ws then due (filters_of (lookup id subs)) else 0)
  unfolding deliveries notify_subs lookup
  deliveries-notify_subs ws ws' id [] u = ground arith
  deliveries-notify_subs ws ws' id ((j, l) ∷ subs) u =
      ground (arith, eq_iff j id, deliveries-notify_subs ws ws' id subs u.1)

  deliveries-notify_listeners :
      (ws : ℕ) (id : String) (listeners : Listeners)
      → NodupKeys listeners
      → ((ws' : ℕ) (subs : Map String Listener) → lookup ws' listeners ≡ some subs → NodupKeys subs)
      → deliveries ws id (notify_listeners n evt listeners) ≡ due (in_subs id (lookup ws listeners))
  unfolding deliveries notify_listeners lookup
  deliveries-notify_listeners ws id [] u inner = refl
  deliveries-notify_listeners ws id ((ws', subs) ∷ listeners) u inner =
      let rest =
        deliveries-notify_listeners ws id listeners u.1
          (λ k subs' e. inner k subs' (ground (arith, u.0, e, nat_beq_iff ws' k))) in
      ground (
        arith,
        u.0,
        nat_beq_iff ws' ws,
        deliveries-append ws id (notify_subs n evt ws' subs) (notify_listeners n evt listeners),
        deliveries-notify_subs ws ws' id subs
            (inner ws' subs (ground (arith, nat_beq_iff ws' ws'))),
        rest,
      )

  -- In valid listeners, the writes of one notification carry the event to a subscription exactly
  -- once if its filters match the event, and never if they do not or there is no subscription.
  pub deliveries-notify :
      (ws : ℕ) (id : String) (listeners : Listeners)
      → IsValid listeners
      → deliveries ws id (notify_listeners n evt listeners) ≡ due (subscription listeners ws id)
  unfolding subscription
  deliveries-notify ws id listeners v =
      deliveries-notify_listeners ws id listeners v.nodup
        (λ k subs e. (AllValues-lookup IsKept k listeners v.inner e).0)

  -- Each write is an EVENT array with the event that was notified.
  abbrev pub CarriesEvent : Write → Type 0
  CarriesEvent w = (id : String) × (w.frame ≡ Frame.event id evt)

  CarriesEvent-notify_subs :
      (ws : ℕ) (subs : Map String Listener) → All CarriesEvent (notify_subs n evt ws subs)
  unfolding notify_subs
  CarriesEvent-notify_subs ws [] = tt
  CarriesEvent-notify_subs ws ((id, l) ∷ subs) = elim (Bool-cases (n.filters_match l.filters evt)) [
    | inl e ↦ rw (e, notify_subs) ((id, refl), CarriesEvent-notify_subs ws subs)
    | inr e ↦ rw (e, notify_subs) (CarriesEvent-notify_subs ws subs)
  ]

  -- A notification writes nothing but EVENT arrays that hold the event that was notified.
  pub CarriesEvent-notify :
      (listeners : Listeners) → All CarriesEvent (notify_listeners n evt listeners)
  unfolding notify_listeners
  CarriesEvent-notify [] = tt
  CarriesEvent-notify ((ws, subs) ∷ listeners) =
      All-append CarriesEvent (notify_subs n evt ws subs) (notify_listeners n evt listeners)
        (CarriesEvent-notify_subs ws subs) (CarriesEvent-notify listeners)
