-- ===== src/Listener/Orders.antt =====
-- The listeners up to their representation, and the orders in which the calls of several
-- connections may take the mutex.
use mathlib.Core.Quot
use mathlib.Core.Quot.{Quot, Quot-set}
use demedia_nostr.Prelude.{
  ℕ, String, List, [], ◌∷◌, ◌++◌, ◌≡◌, ◌≢◌, refl, sym, ap, ◌∙◌, arith, inl, inr, nat_beq,
  Bool-cases, if◌then◌else◌,
}
use demedia_nostr.Nostr.{Event, Nostr}
use demedia_nostr.Listener.Defs.{Listeners, notify_listeners}
use demedia_nostr.Listener.Refinement.{
  subscription, Op, set, remove_id, remove, apply, run, Subscriptions, promised, subscription-apply,
}
use demedia_nostr.Listener.Delivery.{deliveries, due, deliveries-notify}
use demedia_nostr.Listener.Validity.{run-IsValid}

-- Two listeners have the same filters for every connection and subscription id.
abbrev pub Same : Listeners → Listeners → Type 0
Same l l' = subscription l ≡ subscription l'

-- The listeners, less the order of their maps and the connections without a subscription.
abbrev pub View : Type 0
View = Quot Same

abbrev pub view : Listeners → View
view = Quot.mk

pub Same-apply : (op : Op) (l l' : Listeners) → Same l l' → Same (apply op l) (apply op l')
Same-apply op l l' h = subscription-apply op l ∙ ap (promised op) h ∙ sym (subscription-apply op l')

-- A call on a view.
unfoldable pub act : Op → View → View
unfolding apply
act op = Quot.lift Quot-set (λ l. view (apply op l)) (λ l l' h. Quot.sound (Same-apply op l l' h))

unfoldable pub act_all : List Op → View → View
unfolding act
act_all [] v = v
act_all (op ∷ ops) v = act_all ops (act op v)

abbrev pub connection : Op → ℕ
connection (set id ws fs) = ws
connection (remove_id ws id) = ws
connection (remove ws) = ws

-- A call depends on the subscriptions of its own connection, and changes no others.
promised_else :
    (op : Op) (m : Subscriptions) (ws : ℕ) (id : String)
    → connection op ≢ ws
    → promised op m ws id ≡ m ws id
unfolding promised
promised_else (set i w fs) m ws id ne = ground (arith, ne)
promised_else (remove_id w i) m ws id ne = ground (arith, ne)
promised_else (remove w) m ws id ne = ground (arith, ne)

promised_ext :
    (op : Op) (m m' : Subscriptions) (ws : ℕ) (id : String)
    → m ws id ≡ m' ws id
    → promised op m ws id ≡ promised op m' ws id
unfolding promised
promised_ext (set i w fs) m m' ws id h = ground arith
promised_ext (remove_id w i) m m' ws id h = ground arith
promised_ext (remove w) m m' ws id h = ground arith

promised_comm :
    (op op' : Op) (m : Subscriptions) (ws : ℕ) (id : String)
    → connection op ≢ connection op'
    → promised op (promised op' m) ws id ≡ promised op' (promised op m) ws id
promised_comm op op' m ws id ne = elim (Bool-cases (nat_beq (connection op) ws)) [
  | inl t ↦
      let other : connection op' ≢ ws = ground (arith, t, ne) in
      promised_ext op (promised op' m) m ws id (promised_else op' m ws id other)
      ∙ sym (promised_else op' (promised op m) ws id other)
  | inr t ↦
      let other : connection op ≢ ws = ground (arith, t) in
      promised_else op (promised op' m) ws id other
      ∙ promised_ext op' m (promised op m) ws id (sym (promised_else op m ws id other))
]

-- Calls of different connections can change places.
act_comm :
    (op op' : Op)
    → connection op ≢ connection op'
    → (v : View) → act op (act op' v) ≡ act op' (act op v)
unfolding act
act_comm op op' ne =
    Quot.ind (λ v. Quot-set _ _)
      (λ l. Quot.sound (
        subscription-apply op (apply op' l)
        ∙ ap (promised op) (subscription-apply op' l)
        ∙ (λ i ws id. promised_comm op op' (subscription l) ws id ne i)
        ∙ sym (ap (promised op') (subscription-apply op l))
        ∙ sym (subscription-apply op' (apply op l))))

view-run : (ops : List Op) (l : Listeners) → view (run ops l) ≡ act_all ops (view l)
unfolding run act_all act
view-run [] l = refl
view-run (op ∷ ops) l = view-run ops (apply op l)

-- The calls of one connection, and those of the others, in their order.
abbrev pub calls_of : ℕ → List Op → List Op
calls_of ws [] = []
calls_of ws (op ∷ ops) =
    let rest = calls_of ws ops in if nat_beq (connection op) ws then op ∷ rest else rest

abbrev pub calls_but : ℕ → List Op → List Op
calls_but ws [] = []
calls_but ws (op ∷ ops) =
    let rest = calls_but ws ops in if nat_beq (connection op) ws then rest else op ∷ rest

-- A call of a connection can be made after those of the others.
act_all_late :
    (ws : ℕ) (op : Op) (ops : List Op) (v : View)
    → connection op ≡ ws
    → act_all (calls_but ws ops) (act op v) ≡ act op (act_all (calls_but ws ops) v)
unfolding act_all
act_all_late ws op [] v h = refl
act_all_late ws op (o ∷ ops) v h = elim (Bool-cases (nat_beq (connection o) ws)) [
  | inl t ↦ rw t (act_all_late ws op ops v h)
  | inr t ↦
      let ne : connection o ≢ connection op = ground (arith, t, h) in
      rw t
        (ap (act_all (calls_but ws ops)) (act_comm o op ne v) ∙ act_all_late ws op ops (act o v) h)
]

act_all_apart :
    (ws : ℕ) (ops : List Op) (v : View)
    → act_all ops v ≡ act_all (calls_of ws ops) (act_all (calls_but ws ops) v)
unfolding act_all
act_all_apart ws [] v = refl
act_all_apart ws (op ∷ ops) v = elim (Bool-cases (nat_beq (connection op) ws)) [
  | inl t ↦
      let own : connection op ≡ ws = ground (arith, t) in
      rw t (
        act_all_apart ws ops (act op v)
        ∙ ap (act_all (calls_of ws ops)) (act_all_late ws op ops v own))
  | inr t ↦ rw t (act_all_apart ws ops (act op v))
]

-- Up to the representation, the calls of all connections leave the listeners that they leave if
-- those of one connection are made after all the others, each connection's own calls in their
-- order.
pub view-run_apart :
    (ws : ℕ) (ops : List Op) (l : Listeners)
    → view (run ops l) ≡ view (run (calls_of ws ops) (run (calls_but ws ops) l))
view-run_apart ws ops l =
    view-run ops l
    ∙ act_all_apart ws ops (view l)
    ∙ sym (
        view-run (calls_of ws ops) (run (calls_but ws ops) l)
        ∙ ap (act_all (calls_of ws ops)) (view-run (calls_but ws ops) l))

run-append : (xs ys : List Op) (l : Listeners) → run (xs ++ ys) l ≡ run ys (run xs l)
unfolding run
run-append [] ys l = refl
run-append (x ∷ xs) ys l = run-append xs ys (apply x l)

module _ (n : Nostr) (evt : Event) (ws : ℕ) (id : String) where
  -- How often a notification reaches a subscription id, of a view.
  reaches : View → ℕ
  reaches =
      Quot.lift (hlevel) (λ l. due n evt (subscription l ws id))
        (λ l l' h. ap (λ m. due n evt (m ws id)) h)

  -- From the empty listeners on, a notification carries an event to a subscription id as often,
  -- whether the calls of all connections were made in some order, or those of one connection
  -- after all the others.
  pub deliveries-run_apart :
      (one : ℕ) (ops : List Op)
      → deliveries ws id (notify_listeners n evt (run ops []))
        ≡ deliveries ws id (notify_listeners n evt (run (calls_but one ops ++ calls_of one ops) []))
  unfolding reaches
  deliveries-run_apart one ops =
      deliveries-notify n evt ws id (run ops []) (run-IsValid ops)
      ∙ ap reaches (
          view-run_apart one ops []
          ∙ ap view (sym (run-append (calls_but one ops) (calls_of one ops) [])))
      ∙ sym (
          deliveries-notify n evt ws id (run (calls_but one ops ++ calls_of one ops) [])
            (run-IsValid (calls_but one ops ++ calls_of one ops)))
