-- ===== src/Prelude/Text.antt =====
-- What the program uses of Go's packages `strings`, `strconv` and `fmt`.
use Prim.Native.Nat.{ℕ, zero, suc, ◌/◌, ◌%◌, ◌<◌}
use Prim.Native.Char.{Char, code}
use Prim.Native.String
use Prim.Native.String.{String}
use mathlib.Core.Bool.{Bool, true, false, ◌&&◌}
use mathlib.Core.List.{List, [], ◌∷◌}
use mathlib.Core.Logic.{dite}
use mathlib.Core.Path.{◌≡◌, refl}
use mathlib.Core.WellFounded.{Acc, WellFounded}
use native.Mathlib.Decide.{dec_lt}
use native.Mathlib.Omega.{arith}
use text.Mathlib.Text.{◌==◌}
use demedia_nostr.Prelude.Tests.{nat_beq, if◌then◌else◌}
use demedia_nostr.Prelude.Int.{ℤ, pos, negsuc}

infixr 65 ◌<>◌
abbrev pub ◌<>◌ : String → String → String
s <> t = String.◌++◌ s t

-- strings.Join(elems, sep)
unfoldable pub join : List String → String → String
join [] sep = ""
join (x ∷ []) sep = x
join (x ∷ y ∷ xs) sep = x <> sep <> join (y ∷ xs) sep

abbrev push_front : Char → List String → List String
push_front c [] = String.◌∷◌ c "" ∷ []
push_front c (w ∷ ws) = String.◌∷◌ c w ∷ ws

-- strings.Split(s, sep), for a separator of one character, given by its code
unfoldable pub split : String → ℕ → List String
split String.[] sep = "" ∷ []
split (String.◌∷◌ c s) sep =
    let rest = split s sep in if nat_beq (code c) sep then "" ∷ rest else push_front c rest

trim_left : (ℕ → Bool) → String → String
trim_left cut String.[] = ""
trim_left cut (String.◌∷◌ c s) =
    let rest = trim_left cut s in if cut (code c) then rest else String.◌∷◌ c s

trim_right : (ℕ → Bool) → String → String
trim_right cut String.[] = ""
trim_right cut (String.◌∷◌ c s) =
    let rest = trim_right cut s in if rest == "" && cut (code c) then "" else String.◌∷◌ c rest

-- strings.Trim(s, cutset), with the cutset as a test on codes
unfoldable pub trim : String → (ℕ → Bool) → String
unfolding trim_left trim_right
trim s cut = trim_right cut (trim_left cut s)

abbrev pub digit : ℕ → String
digit n =
    if nat_beq n 0
    then "0"
    else if nat_beq n 1
    then "1"
    else if nat_beq n 2
    then "2"
    else if nat_beq n 3
    then "3"
    else if nat_beq n 4
    then "4"
    else if nat_beq n 5
    then "5"
    else if nat_beq n 6
    then "6"
    else if nat_beq n 7
    then "7"
    else if nat_beq n 8
    then "8"
    else "9"

acc_below : (k n : ℕ) → n < k → Acc ◌<◌ n
acc_below zero n h = elim h [ ]
acc_below (suc k) n h = Acc.intro n (λ m lt. acc_below k m (omega arith))

unfoldable pub lt_wf : WellFounded ◌<◌
unfolding acc_below
lt_wf = record { apply = λ n. acc_below (suc n) n (omega arith) }

pub tenth_lt : {n : ℕ} → 9 < n → n / 10 < n
tenth_lt h = omega arith

-- The decimal digits of a number in front of a text.
unfoldable pub show_acc : (n : ℕ) → Acc ◌<◌ n → String → String
show_acc n (Acc.intro _ smaller) out =
    dite (dec_lt 9 n)
      (λ h. show_acc (n / 10) (smaller (n / 10) (tenth_lt h)) (digit (n % 10) <> out))
      (λ _. digit n <> out)

unfoldable pub show_nat : ℕ → String
unfolding show_acc lt_wf dec_lt tenth_lt
show_nat n = show_acc n (lt_wf.apply n) ""

-- strconv.Itoa, and the verb %d
unfoldable pub itoa : ℤ → String
unfolding show_nat
itoa (pos n) = show_nat n
itoa (negsuc n) = "-" <> show_nat (suc n)

itoa_tests : (itoa (pos 0) ≡ "0") × (itoa (pos 20907) ≡ "20907") × (itoa (negsuc 41) ≡ "-42")
unfolding itoa
itoa_tests = (refl, refl, refl)

split_tests : (split "a/b//c" 47 ≡ "a" ∷ "b" ∷ "" ∷ "c" ∷ []) × (split "" 47 ≡ "" ∷ [])
unfolding split
split_tests = (refl, refl)

-- strconv.FormatBool
abbrev pub format_bool : Bool → String
format_bool true = "true"
format_bool false = "false"
