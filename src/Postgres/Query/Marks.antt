-- ===== src/Postgres/Query/Marks.antt =====
-- The number of placeholders in the texts that QueryEvents builds.
use Prim.Native.Nat.{suc, ◌<◌, ◌/◌, ◌%◌}
use Prim.Native.Char.{code}
use Prim.Native.String.append
use mathlib.Core.Logic.{dif_pos, dif_neg}
use mathlib.Core.WellFounded.{Acc}
use mathlib.Core.Option.{some-injective}
use native.Mathlib.Bridge.{le_prop}
use native.Mathlib.Decide.{dec_lt}
use demedia_nostr.Prelude.{
  ℕ, ◌+◌, ◌≡◌, refl, ◌∙◌, String, Bool, true, false, Option, none, some, List, [], ◌∷◌, ◌++◌,
  length, arith, nat_beq, if◌then◌else◌, ℤ, pos, negsuc, Bool-cases, inl, inr,
}
use demedia_nostr.Prelude.Text.{◌<>◌, join, itoa, digit, show_nat, show_acc, tenth_lt, lt_wf}
use demedia_nostr.Prelude.Hex.{Bytes, hex_encode, hex_decode, hex_digit}
use demedia_nostr.Postgres.Query.Text.{like, push_like, likes, any_like}

-- How many placeholders a text has.
unfoldable pub marks : String → ℕ
marks String.[] = 0
marks (String.◌∷◌ c s) = (if nat_beq (code c) b'?' then 1 else 0) + marks s

pub marks-append : (s t : String) → marks (s <> t) ≡ marks s + marks t
unfolding marks
marks-append String.[] t = rw (append.nil t) (omega arith)
marks-append (String.◌∷◌ c s) t = rw (append.cons c s t) (omega (arith, marks-append s t))

marks-if : (b : Bool) (s t : String) → marks (if b then s else t) ≡ (if b then marks s else marks t)
marks-if true s t = refl
marks-if false s t = refl

if_zero : (b : Bool) → ◌≡◌ {A = ℕ} (if b then 0 else 0) 0
if_zero true = refl
if_zero false = refl

marks-digit : (n : ℕ) → marks (digit n) ≡ 0
unfolding marks
marks-digit n = simp (marks-if, if_zero)

marks-hex_digit : (n : ℕ) → marks (hex_digit n) ≡ 0
unfolding marks hex_digit
marks-hex_digit n = simp (marks-if, if_zero)

marks-hex_encode : (bs : Bytes) → marks (hex_encode bs) ≡ 0
unfolding hex_encode
marks-hex_encode [] = unfold marks in refl
marks-hex_encode (b ∷ bs) = omega (
  arith,
  marks-append (hex_digit (b / 16 % 16)) (hex_digit (b % 16) <> hex_encode bs),
  marks-append (hex_digit (b % 16)) (hex_encode bs),
  marks-hex_digit (b / 16 % 16),
  marks-hex_digit (b % 16),
  marks-hex_encode bs,
)

marks-show_acc : (n : ℕ) (w : Acc ◌<◌ n) (out : String) → marks (show_acc n w out) ≡ marks out
unfolding show_acc
marks-show_acc n (Acc.intro _ smaller) out = elim (dec_lt 9 n) [
  | yes h ↦ rw (dif_pos _ le_prop h) (
      marks-show_acc (n / 10) (smaller (n / 10) (tenth_lt h)) (digit (n % 10) <> out)
      ∙ omega (arith, marks-append (digit (n % 10)) out, marks-digit (n % 10)))
  | no h ↦ rw (dif_neg _ h) (omega (arith, marks-append (digit n) out, marks-digit n))
]

marks-show_nat : (n : ℕ) → marks (show_nat n) ≡ 0
unfolding show_nat marks
marks-show_nat n = marks-show_acc n (lt_wf.apply n) ""

pub marks-itoa : (z : ℤ) → marks (itoa z) ≡ 0
unfolding itoa marks
marks-itoa (pos n) = marks-show_nat n
marks-itoa (negsuc n) = omega (arith, marks-append "-" (show_nat (suc n)), marks-show_nat (suc n))

-- The placeholders of a list of texts, and of the texts joined by one without.
unfoldable pub total : List String → ℕ
total [] = 0
total (s ∷ ss) = marks s + total ss

pub marks-join : (ss : List String) (sep : String) → marks sep ≡ 0 → marks (join ss sep) ≡ total ss
unfolding join total marks
marks-join [] sep h = refl
marks-join (s ∷ []) sep h = omega arith
marks-join (s ∷ t ∷ ss) sep h = omega (
  arith,
  marks-append s (sep <> join (t ∷ ss) sep),
  marks-append sep (join (t ∷ ss) sep),
  marks-join (t ∷ ss) sep h,
)

pub total-append : (xs ys : List String) → total (xs ++ ys) ≡ total xs + total ys
unfolding total
total-append [] ys = omega arith
total-append (x ∷ xs) ys = omega (arith, total-append xs ys)

marks-like : (column : String) (bs : Bytes) → marks column ≡ 0 → marks (like column bs) ≡ 0
unfolding marks
marks-like column bs h = omega (
  arith,
  marks-append column (" LIKE '" <> hex_encode bs <> "%'"),
  marks-append " LIKE '" (hex_encode bs <> "%'"),
  marks-append (hex_encode bs) "%'",
  marks-hex_encode bs,
)

total-push_like :
    (column : String) (o : Option Bytes) (ls : List String)
    → marks column ≡ 0
    → total ls ≡ 0
    → total (push_like column o ls) ≡ 0
unfolding total
total-push_like column none ls h e = e
total-push_like column (some bs) ls h e = elim (Bool-cases (nat_beq (length bs) 32)) [
  | inl t ↦ rw (t, push_like) (omega (arith, marks-like column bs h))
  | inr t ↦ rw (t, push_like) e
]

pub total-likes :
    (column : String) (values : List String) → marks column ≡ 0 → total (likes column values) ≡ 0
unfolding likes
total-likes column [] h = unfold total in refl
total-likes column (v ∷ values) h =
    total-push_like column (hex_decode v) (likes column values) h (total-likes column values h)

pub total-any_like : (ls cs : List String) → total ls ≡ 0 → any_like ls ≡ some cs → total cs ≡ 0
unfolding total marks
total-any_like [] cs h e = cc
total-any_like (l ∷ ls) cs h e = rw (← some-injective _ _ e) (
    omega (
      arith,
      marks-append "(" (join (l ∷ ls) " OR " <> ")"),
      marks-append (join (l ∷ ls) " OR ") ")",
      marks-join (l ∷ ls) " OR " refl,
    ))
