-- ===== src/Prelude/Results.antt =====
-- A value, or the exception that was raised.
use mathlib.Core.Path.{◌≡◌, refl}
use mathlib.Core.Bool.{Bool, true, false}

pub data Result {ℓᵉ ℓ} (Exc : Type ℓᵉ) (Val : Type ℓ) : Type (ℓᵉ ⊔ ℓ) where
  err : Exc → Result Exc Val
  ok : Val → Result Exc Val

infixl 5 ◌>>◌ ◌>>=◌
-- `if c: raise e`
abbrev pub raise_if {ℓᵉ} : {Exc : Type ℓᵉ} → Bool → Exc → Result Exc (Unit {0})
raise_if false raised = ok tt
raise_if true raised = err raised

abbrev pub ◌>>=◌ {ℓᵉ ℓ ℓ'} :
    {Exc : Type ℓᵉ} {Val : Type ℓ} {Out : Type ℓ'}
    → Result Exc Val
    → (Val → Result Exc Out)
    → Result Exc Out
err raised >>= rest = err raised
ok v >>= rest = rest v

-- A statement that may raise, and what follows it.
abbrev pub ◌>>◌ {ℓᵉ ℓ} :
    {Exc : Type ℓᵉ} {Val : Type ℓ} → Result Exc (Unit {0}) → Result Exc Val → Result Exc Val
first >> rest = first >>= λ _. rest

-- What returns a value has returned from its first part.
pub >>=-returns {ℓᵉ ℓ ℓ'} :
    {Exc : Type ℓᵉ} {Val : Type ℓ} {Out : Type ℓ'} (first : Result Exc Val)
    (rest : Val → Result Exc Out) {out : Out}
    → (first >>= rest) ≡ ok out
    → (v : Val) × (first ≡ ok v) × (rest v ≡ ok out)
>>=-returns (err raised) rest e = cc
>>=-returns (ok v) rest e = (v, refl, e)

-- A guard that lets the code go on was false.
pub >>-returns {ℓᵉ ℓ} :
    {Exc : Type ℓᵉ} {Val : Type ℓ} (c : Bool) (raised : Exc) (m : Result Exc Val) {v : Val}
    → (raise_if c raised >> m) ≡ ok v
    → (c ≡ false) × (m ≡ ok v)
>>-returns false raised m e = (refl, e)
>>-returns true raised m e = cc
