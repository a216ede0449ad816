-- ===== src/Programs/Exiting.antt =====
-- The body of a main function, which log.Fatalf ends with a message.
use demedia_nostr.Prelude.{String, Option, none, some, ◌≡◌, refl, ap, arith}
use mathlib.Core.Path.{subst}
use demedia_nostr.Prelude.Text.{◌<>◌}
use demedia_nostr.Prelude.Go.{Go, returns, panics, blocks}
use demedia_nostr.Nostr.{Error, error_text, Result, ok, err}

pub data Outcome (A : Type 0) : Type 0 where
  goes_on : A → Outcome A
  exits : String → Outcome A
  crashes : Outcome A
  hangs : Outcome A

abbrev pub Program : Type 0 → Type 0 → Type 0
Program Env A = Env → Outcome A × Env

abbrev pub continue : {Env A B : Type 0} → (A → Program Env B) → Outcome A × Env → Outcome B × Env
continue f (goes_on a, w) = f a w
continue f (exits s, w) = (exits s, w)
continue f (crashes, w) = (crashes, w)
continue f (hangs, w) = (hangs, w)

infixl 5 ◌>>=◌ ◌>>◌
abbrev pub ◌>>=◌ : {Env A B : Type 0} → Program Env A → (A → Program Env B) → Program Env B
◌>>=◌ m f w = continue f (m w)

abbrev pub ◌>>◌ : {Env A B : Type 0} → Program Env A → Program Env B → Program Env B
m >> k = m >>= λ _. k

abbrev pub outcome : {A : Type 0} → (Error → String) → Result A → Outcome A
outcome text (ok a) = goes_on a
outcome text (err e) = exits (text e)

-- if err != nil { log.Fatalf(...) }, on a call's result
abbrev pub or_exit : {Env A : Type 0} → (Error → String) → (Env → Result A × Env) → Program Env A
or_exit text f w = let r = f w in (outcome text r.0, r.1)

abbrev pub as_result : Option Error → Result (Unit {0})
as_result none = ok tt
as_result (some e) = err e

abbrev pub or_exit_with :
    {Env : Type 0} → (Error → String) → (Env → Option Error × Env) → Program Env (Unit {0})
or_exit_with text f = or_exit text (λ w. let r = f w in (as_result r.0, r.1))

-- A call that cannot fail.
abbrev pub does : {Env A : Type 0} → (Env → A × Env) → Program Env A
does f w = let r = f w in (goes_on r.0, r.1)

abbrev pub of_go : {A : Type 0} → Go A → Outcome A
of_go (returns a) = goes_on a
of_go panics = crashes
of_go blocks = hangs

-- A call that may panic.
abbrev pub may_panic : {Env A : Type 0} → (Env → Go A × Env) → Program Env A
may_panic f w = let r = f w in (of_go r.0, r.1)

-- A deferred call runs if the function returns or panics, and not if the process exits.
abbrev pub run_deferred : {Env A : Type 0} → (Env → Env) → Outcome A × Env → Outcome A × Env
run_deferred f (goes_on a, w) = (goes_on a, f w)
run_deferred f (exits s, w) = (exits s, w)
run_deferred f (crashes, w) = (crashes, f w)
run_deferred f (hangs, w) = (hangs, w)

abbrev pub deferred : {Env A : Type 0} → (Env → Env) → Program Env A → Program Env A
deferred f m w = run_deferred f (m w)

-- The text of a message whose format ends with ": %v".
abbrev pub prefixed : String → Error → String
prefixed s e = s <> ": " <> error_text e

-- A step that went on, and the rest, of a program that goes on to its end.
pub continue_inv :
    {Env A B : Type 0} (f : A → Program Env B) (r : Outcome A × Env) (b : B) (w : Env)
    → continue f r ≡ (goes_on b, w)
    → (a : A) × (v : Env) × (r ≡ (goes_on a, v)) × (f a v ≡ (goes_on b, w))
continue_inv f (goes_on a, v) b w e = (a, v, refl, e)
continue_inv f (exits s, v) b w e = absurd (ground (arith, ap (λ x. x.0) e))
continue_inv f (crashes, v) b w e = absurd (ground (arith, ap (λ x. x.0) e))
continue_inv f (hangs, v) b w e = absurd (ground (arith, ap (λ x. x.0) e))

pub or_exit_inv :
    {Env A : Type 0} (text : Error → String) (f : Env → Result A × Env) (a : A) (w v : Env)
    → or_exit text f w ≡ (goes_on a, v)
    → f w ≡ (ok a, v)
or_exit_inv {Env} {A} text f a w v = by_result (f w)
  where
    by_result :
        (r : Result A × Env)
        → ◌≡◌ {A = Outcome A × Env} (outcome text r.0, r.1) (goes_on a, v)
        → r ≡ (ok a, v)
    by_result (err e, u) h = absurd (ground (arith, ap (λ x. x.0) h))
    by_result (ok x, u) h =
        let value : x ≡ a = ground (arith, ap (λ y. y.0) h) in rw (value, ap (λ y. y.1) h) refl

pub or_exit_with_inv :
    {Env : Type 0} (text : Error → String) (f : Env → Option Error × Env) (w v : Env)
    → or_exit_with text f w ≡ (goes_on tt, v)
    → f w ≡ (none, v)
or_exit_with_inv {Env} text f w v = by_error (f w)
  where
    by_error :
        (r : Option Error × Env)
        → ◌≡◌ {A = Outcome (Unit {0}) × Env} (outcome text (as_result r.0), r.1) (goes_on tt, v)
        → r ≡ (none, v)
    by_error (some e, u) h = absurd (ground (arith, ap (λ x. x.0) h))
    by_error (none, u) h = ap (λ x. (none, x.1)) h

-- Where the program goes on to its end, the last world has the property.
abbrev pub Ensures : {Env A : Type 0} → (Env → Type 0) → Program Env A → Type 0
Ensures {Env} {A} P m = (w : Env) (a : A) (w' : Env) → m w ≡ (goes_on a, w') → P w'

pub Ensures-bind :
    {Env A B : Type 0} (P : Env → Type 0) (m : Program Env A) (f : A → Program Env B)
    → ((a : A) → Ensures P (f a))
    → Ensures P (m >>= f)
Ensures-bind P m f h w b w' e =
    let (a, v, first, rest) = continue_inv f (m w) b w' e in h a v b w' rest

pub Ensures-deferred :
    {Env A : Type 0} (P : Env → Type 0) (f : Env → Env) (m : Program Env A)
    → Ensures (λ v. P (f v)) m
    → Ensures P (deferred f m)
Ensures-deferred {Env} {A} P f m h w a w' = by_outcome (m w) (λ b v e. h w b v e)
  where
    by_outcome :
        (r : Outcome A × Env)
        → ((b : A) (v : Env) → r ≡ (goes_on b, v) → P (f v))
        → run_deferred f r ≡ (goes_on a, w')
        → P w'
    by_outcome (goes_on b, v) k e = subst P (ap (λ x. x.1) e) (k b v refl)
    by_outcome (exits s, v) k e = absurd (ground (arith, ap (λ x. x.0) e))
    by_outcome (crashes, v) k e = absurd (ground (arith, ap (λ x. x.0) e))
    by_outcome (hangs, v) k e = absurd (ground (arith, ap (λ x. x.0) e))
