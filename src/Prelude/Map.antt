-- ===== src/Prelude/Map.antt =====
-- Go's maps as association lists. The order of the list stands for the order in which `range`
-- happens to visit the entries.
use mathlib.Core.List.{List, [], ◌∷◌}
use mathlib.Core.Option.{Option, none, some}
use mathlib.Core.Path.{◌≡◌, refl}
use native.Mathlib.Omega.{arith}
use mathlib.Core.Path.{subst}
use mathlib.Core.Logic.{inl, inr}
use mathlib.Core.Option.{some-injective}
use demedia_nostr.Prelude.Tests.{Bool-cases, Eq, if◌then◌else◌}

abbrev pub Map {ℓ κ} : Type ℓ → Type κ → Type (ℓ ⊔ κ)
Map K V = List (K × V)

module _ {ℓ κ} {K : Type ℓ} {V : Type κ} ⦃e : Eq K⦄ where
  -- v, ok := m[k]
  unfoldable pub lookup : K → Map K V → Option V
  lookup k [] = none
  lookup k ((j, v) ∷ m) = if e.beq j k then some v else lookup k m

  -- m[k] = v
  unfoldable pub insert : K → V → Map K V → Map K V
  insert k v [] = (k, v) ∷ []
  insert k v ((j, w) ∷ m) = if e.beq j k then (j, v) ∷ m else (j, w) ∷ insert k v m

  -- delete(m, k)
  unfoldable pub erase : K → Map K V → Map K V
  erase k [] = []
  erase k ((j, w) ∷ m) = let rest = erase k m in if e.beq j k then rest else (j, w) ∷ rest

  -- No key stands twice.
  abbrev pub NodupKeys : Map K V → Type κ
  NodupKeys [] = Unit
  NodupKeys ((k, _) ∷ m) = (lookup k m ≡ none) × NodupKeys m

  pub lookup-insert :
      (j k : K) (v : V) (m : Map K V)
      → lookup j (insert k v m) ≡ (if e.beq k j then some v else lookup j m)
  unfolding lookup insert
  lookup-insert j k v [] = refl
  lookup-insert j k v ((i, w) ∷ m) =
      ground (arith, e.beq_iff k j, e.beq_iff i k, e.beq_iff i j, lookup-insert j k v m)

  pub lookup-erase :
      (j k : K) (m : Map K V) → lookup j (erase k m) ≡ (if e.beq k j then none else lookup j m)
  unfolding lookup erase
  lookup-erase j k [] = ground arith
  lookup-erase j k ((i, w) ∷ m) =
      ground (arith, e.beq_iff k j, e.beq_iff i k, e.beq_iff i j, lookup-erase j k m)

  pub insert-NodupKeys : (k : K) (v : V) (m : Map K V) → NodupKeys m → NodupKeys (insert k v m)
  unfolding insert lookup
  insert-NodupKeys k v [] h = (refl, tt)
  insert-NodupKeys k v ((j, w) ∷ m) h =
      ground
        (arith, e.beq_iff j k, e.beq_iff k j, insert-NodupKeys k v m h.1, lookup-insert j k v m)

  pub erase-NodupKeys : (k : K) (m : Map K V) → NodupKeys m → NodupKeys (erase k m)
  unfolding erase lookup
  erase-NodupKeys k [] h = tt
  erase-NodupKeys k ((j, w) ∷ m) h = ground (arith, erase-NodupKeys k m h.1, lookup-erase j k m)

  -- Every value has the property.
  abbrev pub AllValues {μ} : (V → Type μ) → Map K V → Type μ
  AllValues P [] = Unit
  AllValues P ((_, v) ∷ m) = P v × AllValues P m

  pub AllValues-lookup {μ} :
      (P : V → Type μ) (k : K) (m : Map K V) {v : V} → AllValues P m → lookup k m ≡ some v → P v
  unfolding lookup
  AllValues-lookup P k [] h found = cc
  AllValues-lookup P k ((j, w) ∷ m) {v} h found = elim (Bool-cases (e.beq j k)) [
    | inl t ↦ subst P (some-injective w v (ground (arith, t))) h.0
    | inr t ↦ AllValues-lookup P k m h.1 (ground (arith, t))
  ]

  pub AllValues-insert {μ} :
      (P : V → Type μ) (k : K) (v : V) (m : Map K V)
      → AllValues P m
      → P v
      → AllValues P (insert k v m)
  unfolding insert
  AllValues-insert P k v [] h p = (p, tt)
  AllValues-insert P k v ((j, w) ∷ m) h p = elim (Bool-cases (e.beq j k)) [
    | inl t ↦ rw (t, insert) (p, h.1)
    | inr t ↦ rw (t, insert) (h.0, AllValues-insert P k v m h.1 p)
  ]

  pub AllValues-erase {μ} :
      (P : V → Type μ) (k : K) (m : Map K V) → AllValues P m → AllValues P (erase k m)
  unfolding erase
  AllValues-erase P k [] h = tt
  AllValues-erase P k ((j, w) ∷ m) h = elim (Bool-cases (e.beq j k)) [
    | inl t ↦ rw (t, erase) (AllValues-erase P k m h.1)
    | inr t ↦ rw (t, erase) (h.0, AllValues-erase P k m h.1)
  ]
