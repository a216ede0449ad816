-- ===== src/Prelude/Splits.antt =====
-- The parts into which strings.Split takes a text, and strings.Contains.
use Prim.Native.Nat.{ℕ}
use Prim.Native.Char.{code}
use Prim.Native.String.{String}
use Prim.Native.String.append
use mathlib.Core.Bool.{Bool, false, ◌||◌}
use mathlib.Core.List.{[], ◌∷◌}
use mathlib.Core.Path.{◌≡◌, refl}
use native.Mathlib.Omega.{arith}
use text.Mathlib.Text.{◌==◌, starts_with}
use demedia_nostr.Prelude.Tests.{nat_beq}
use demedia_nostr.Prelude.Text.{◌<>◌, split}

-- Whether a text has the character, given by its code.
unfoldable pub has_code : ℕ → String → Bool
has_code sep String.[] = false
has_code sep (String.◌∷◌ c s) = nat_beq (code c) sep || has_code sep s

-- strings.Contains(s, substr)
unfoldable pub contains : String → String → Bool
contains String.[] substr = substr == ""
contains (String.◌∷◌ c s) substr = starts_with (String.◌∷◌ c s) substr || contains s substr

pub split_one : (s : String) (sep : ℕ) → has_code sep s ≡ false → split s sep ≡ s ∷ []
unfolding split has_code
split_one String.[] sep h = refl
split_one (String.◌∷◌ c s) sep h = ground (arith, h, split_one s sep)

-- A text without the character, and after it the character and the rest.
pub split-append :
    (k a t : String) (sep : ℕ)
    → has_code sep k ≡ false
    → split a sep ≡ "" ∷ split t sep
    → split (k <> a) sep ≡ k ∷ split t sep
unfolding split has_code
split-append String.[] a t sep h e = rw append.nil e
split-append (String.◌∷◌ c k) a t sep h e =
    rw (append.cons c k a) (ground (arith, h, split-append k a t sep, e))
