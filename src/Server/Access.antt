-- ===== src/Server/Access.antt =====
-- handlers.go: what the guard of direct messages lets through, and how many events a filter gets.
use demedia_nostr.Prelude.{
  String, Bool, true, false, ◌==◌, ◌&&◌, none, List, [], ◌∷◌, any, length, length-take, ltb, ltb→lt,
  Bool-cases, ◌≡◌, ◌≢◌, refl, arith, pos, int_beq, ◌⊎◌, inl, inr, ℕ,
}
use Prim.Native.Nat.{◌≤◌, ◌<◌}
use text.Mathlib.TextEquality.{eq_iff}
use demedia_nostr.Nostr.{Filter, Event}
use demedia_nostr.Server.Restrict.{or_empty, is_only, receivers_of, restriction}
use demedia_nostr.Server.Subscribe.{truncate}

is_only-true : (who : String) (xs : List String) → is_only who xs ≡ true → xs ≡ who ∷ []
is_only-true who [] h = absurd (ground (arith, h))
is_only-true who (x ∷ []) h = cc ((eq_iff x who).0 h)
is_only-true who (x ∷ y ∷ xs) h = absurd (ground (arith, h))

and-true : (a b : Bool) → (a && b) ≡ true → (a ≡ true) × (b ≡ true)
and-true true b h = (refl, h)
and-true false b h = (h, absurd (ground (arith, h)))

-- If the guard lets a filter through that asks for events of kind 4, then the connection is
-- authenticated, and either it is the one sender that the filter names, of at most one receiver,
-- or the one receiver, of at most one sender.
pub restriction-none :
    (authed : String) (f : Filter)
    → any (λ k. int_beq k (pos 4)) (or_empty f.kinds) ≡ true
    → restriction authed f ≡ none
    → (authed ≢ "")
      × (((or_empty f.authors ≡ authed ∷ []) × (length (receivers_of f) < 2))
          ⊎ ((receivers_of f ≡ authed ∷ []) × (length (or_empty f.authors) < 2)))
unfolding restriction
restriction-none authed f k h =
    let senders = or_empty f.authors in
    let receivers = receivers_of f in
    elim (Bool-cases (authed == "")) [
      | inl p ↦ absurd (ground (arith, k, p, h))
      | inr p ↦ (
        λ e. ground (arith, p, (eq_iff authed "").1 e),
        elim (Bool-cases (is_only authed senders && ltb (length receivers) 2)) [
          | inl q ↦
              inl (is_only-true authed senders (and-true _ _ q).0, ltb→lt _ _ (and-true _ _ q).1)
          | inr q ↦ elim (Bool-cases (is_only authed receivers && ltb (length senders) 2)) [
            | inl r ↦
                inr
                  (is_only-true authed receivers (and-true _ _ r).0, ltb→lt _ _ (and-true _ _ r).1)
            | inr r ↦ absurd (ground (arith, k, p, q, r, h))
          ]
        ],
      )
    ]

-- A positive limit bounds the number of the events that a filter gets, whatever the storage and
-- its AfterQuery return.
pub length-truncate : (n : ℕ) (events : List Event) → 0 < n → length (truncate (pos n) events) ≤ n
unfolding truncate
length-truncate n events h = elim (Bool-cases (ltb 0 n && ltb n (length events))) [
  | inl p ↦ rw p (omega (arith, length-take n events))
  | inr p ↦ rw p (ground (arith, p, h))
]
