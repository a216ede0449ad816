-- ===== src/Prelude/Hex.antt =====
-- What the program uses of Go's package `encoding/hex`, and the verb %x on bytes.
use Prim.Native.Nat.{ℕ, ◌+◌, ◌-◌, ◌*◌, ◌/◌, ◌%◌, ◌≤◌}
use Prim.Native.Char.{code}
use Prim.Native.String.append
use Prim.Native.String.{String}
use mathlib.Core.Bool.{Bool, true, false, ◌&&◌, ◌||◌}
use mathlib.Core.List.{List, [], ◌∷◌}
use mathlib.Core.Option.{Option, none, some}
use mathlib.Core.Path.{◌≡◌, refl}
use native.Mathlib.Omega.{arith}
use demedia_nostr.Prelude.Tests.{leb, nat_beq, if◌then◌else◌}
use demedia_nostr.Prelude.Text.{digit, ◌<>◌}

abbrev pub Bytes : Type 0
Bytes = List ℕ

unfoldable pub hex_digit : ℕ → String
hex_digit n =
    if leb n 9
    then digit n
    else if nat_beq n 10
    then "a"
    else if nat_beq n 11
    then "b"
    else if nat_beq n 12
    then "c"
    else if nat_beq n 13
    then "d"
    else if nat_beq n 14
    then "e"
    else "f"

-- hex.EncodeToString(bytes), and %x
unfoldable pub hex_encode : Bytes → String
unfolding hex_digit
hex_encode [] = ""
hex_encode (b ∷ bs) = hex_digit (b / 16 % 16) <> hex_digit (b % 16) <> hex_encode bs

abbrev pub hex_value : ℕ → Option ℕ
hex_value c =
    if leb b'0' c && leb c b'9'
    then some (c - b'0')
    else if leb b'a' c && leb c b'f'
    then some (c - b'a' + 10)
    else if leb b'A' c && leb c b'F'
    then some (c - b'A' + 10)
    else none

abbrev pub cons_byte : Option ℕ → Option ℕ → Option Bytes → Option Bytes
cons_byte (some h) (some l) (some bs) = some ((h * 16 + l) ∷ bs)
cons_byte _ _ _ = none

-- hex.DecodeString(s); an error is `none`
unfoldable pub hex_decode : String → Option Bytes
hex_decode String.[] = some []
hex_decode (String.◌∷◌ c String.[]) = none
hex_decode (String.◌∷◌ c (String.◌∷◌ d s)) =
    cons_byte (hex_value (code c)) (hex_value (code d)) (hex_decode s)

hex_tests :
    (hex_encode (0 ∷ 171 ∷ 255 ∷ []) ≡ "00abff")
    × (hex_decode "00aBFf" ≡ some (0 ∷ 171 ∷ 255 ∷ []))
    × (hex_decode "0" ≡ none)
    × (hex_decode "0g" ≡ none)
unfolding hex_encode hex_decode
hex_tests = (refl, refl, refl, refl)

-- A lower case hexadecimal digit.
abbrev pub is_hex_code : ℕ → Bool
is_hex_code c = (leb b'0' c && leb c b'9') || (leb b'a' c && leb c b'f')

-- Every character passes the test.
unfoldable pub all_codes : (ℕ → Bool) → String → Bool
all_codes p String.[] = true
all_codes p (String.◌∷◌ c s) = p (code c) && all_codes p s

pub all_codes-append :
    (p : ℕ → Bool) (s t : String) → all_codes p (s <> t) ≡ (all_codes p s && all_codes p t)
unfolding all_codes
all_codes-append p String.[] t = rw append.nil refl
all_codes-append p (String.◌∷◌ c s) t =
    rw (append.cons c s t) (ground (arith, all_codes-append p s t))

if_same {ℓ} : {A : Type ℓ} (b : Bool) (x : A) → (if b then x else x) ≡ x
if_same true x = refl
if_same false x = refl

pub all_codes-if :
    (p : ℕ → Bool) (b : Bool) (s t : String)
    → all_codes p (if b then s else t) ≡ (if b then all_codes p s else all_codes p t)
all_codes-if p true s t = refl
all_codes-if p false s t = refl

-- Every decimal digit passes a test that the ten codes from 48 on pass.
pub all_codes-digit :
    (p : ℕ → Bool) (n : ℕ) → ((k : ℕ) → k ≤ 9 → p (b'0' + k) ≡ true) → all_codes p (digit n) ≡ true
unfolding all_codes
all_codes-digit p n h = simp (
  all_codes-if,
  h 0 (omega arith),
  h 1 (omega arith),
  h 2 (omega arith),
  h 3 (omega arith),
  h 4 (omega arith),
  h 5 (omega arith),
  h 6 (omega arith),
  h 7 (omega arith),
  h 8 (omega arith),
  h 9 (omega arith),
  if_same,
)

hex_digit-hex : (n : ℕ) → all_codes is_hex_code (hex_digit n) ≡ true
unfolding all_codes hex_digit
hex_digit-hex n = simp (all_codes-if, if_same)

-- The text of bytes in hexadecimal has no other characters than 0 to 9 and a to f.
pub hex_encode-hex : (bs : Bytes) → all_codes is_hex_code (hex_encode bs) ≡ true
unfolding hex_encode
hex_encode-hex [] = unfold all_codes in refl
hex_encode-hex (b ∷ bs) =
    simp (all_codes-append, hex_digit-hex (b / 16 % 16), hex_digit-hex (b % 16), hex_encode-hex bs)
