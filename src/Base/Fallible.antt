-- ===== src/Base/Fallible.antt =====
-- A value or an error, as a Go function returns them that gives nil beside an error.
use namespace_lister.Base.Core.{String}

pub data Fallible {ℓ} (A : Type ℓ) : Type ℓ where
  done : A → Fallible A
  failed : String → Fallible A

-- `if err != nil { return nil, err }`
abbrev pub ◌and_then◌ {ℓ κ} : {A : Type ℓ} {B : Type κ} → Fallible A → (A → Fallible B) → Fallible B
done a and_then f = f a
failed e and_then f = failed e

infixl 5 ◌and_then◌
-- The same with a text made of the error.
abbrev pub wrap_error {ℓ} : {A : Type ℓ} → (String → String) → Fallible A → Fallible A
wrap_error wrap (done a) = done a
wrap_error wrap (failed e) = failed (wrap e)
