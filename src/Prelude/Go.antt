-- ===== src/Prelude/Go.antt =====
-- How a call of a Go function ends.

-- It returns, it panics (an index or a slice bound out of range), or it waits for ever.
pub data Go {ℓ} (A : Type ℓ) : Type ℓ where
  returns : A → Go A
  panics : Go A
  blocks : Go A

infixl 5 ◌>>=◌
abbrev pub ◌>>=◌ {ℓ κ} : {A : Type ℓ} {B : Type κ} → Go A → (A → Go B) → Go B
returns a >>= f = f a
panics >>= f = panics
blocks >>= f = blocks
