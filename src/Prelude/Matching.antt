-- ===== src/Prelude/Matching.antt =====
-- Tests of a value against a list of them, and of a text against its start.
use Prim.Native.String.{String, len}
use Prim.Native.String.len
use Prim.Native.Nat.{◌≤◌}
use mathlib.Core.Bool.{Bool, true}
use mathlib.Core.List.{List, [], ◌∷◌, map}
use mathlib.Core.Path.{◌≡◌, refl, sym, ap, ◌∙◌}
use native.Mathlib.Omega.{arith}
use text.Mathlib.Text.{◌==◌, starts_with}
use text.Mathlib.TextEquality.{eq_iff, starts_with_iff}
use text.Mathlib.TextPositions.{len-append, len_utf8-pos}
use text.Mathlib.TextLemmas.{append-nil}
use demedia_nostr.Prelude.Lists.{any}
use demedia_nostr.Prelude.Text.{◌<>◌}

abbrev pub is_one_of : List String → String → Bool
is_one_of xs s = any (λ x. x == s) xs

-- A list that asks for nothing if it is empty.
abbrev pub none_or_any {ℓ} : {A : Type ℓ} → (A → Bool) → List A → Bool
none_or_any p [] = true
none_or_any p (x ∷ xs) = any p (x ∷ xs)

bool_ext : (a b : Bool) → (a ≡ true → b ≡ true) → (b ≡ true → a ≡ true) → a ≡ b
bool_ext a b h k = ground arith

len_zero : (u : String) → len u ≡ 0 → u ≡ ""
len_zero String.[] h = refl
len_zero (String.◌∷◌ c u) h = let (k, p) = len_utf8-pos c in absurd (omega (arith, len.cons c u, p))

-- A text that is no longer than another starts with it only if it is the other.
pub starts_with_full : (s v : String) → len s ≤ len v → starts_with s v ≡ (v == s)
starts_with_full s v h = bool_ext _ _ to of
  where
    to : starts_with s v ≡ true → (v == s) ≡ true
    to t =
        let (u, e) = (starts_with_iff s v).0 t in
        let short : u ≡ "" = len_zero u (omega (arith, len-append v u, ap len e)) in
        (eq_iff v s).1 (sym (append-nil v) ∙ ap (λ x. v <> x) (sym short) ∙ e)

    of : (v == s) ≡ true → starts_with s v ≡ true
    of t = (starts_with_iff s v).1 ("", append-nil v ∙ (eq_iff v s).0 t)

pub any-map {ℓ κ} :
    {A : Type ℓ} {B : Type κ} (p : B → Bool) (q : A → Bool) (f : A → B) (xs : List A)
    → ((x : A) → p (f x) ≡ q x)
    → any p (map f xs) ≡ any q xs
any-map p q f [] h = refl
any-map p q f (x ∷ xs) h = ground (arith, h x, any-map p q f xs h)
