-- ===== src/Exec.antt =====
-- Code that changes a state and may throw. What it wrote before a throw stays written, so the
-- state comes back beside the error too.
use mcp_sso.Common.{◌≡◌, refl}
use mcp_sso.Errors.{Thrown, Result, ok, err}

abbrev pub Exec {ℓ} : Type ℓ → Type ℓ → Type ℓ
Exec S A = S → Result A × S

module _ {ℓ} {S A : Type ℓ} where
  abbrev pub pure : A → Exec S A
  pure a s = (ok a, s)

  abbrev pub throw : Thrown → Exec S A
  throw e s = (err e, s)

  -- Code that reads no state.
  abbrev pub lift : Result A → Exec S A
  lift r s = (r, s)

  abbrev pub gets : (S → A) → Exec S A
  gets f s = (ok (f s), s)

module _ {ℓ} {S A B : Type ℓ} where
  abbrev pub continue : (A → Exec S B) → Result A × S → Result B × S
  continue f (ok a, s) = f a s
  continue f (err e, s) = (err e, s)

  infixl 5 ◌>>=◌ ◌>>◌
  abbrev pub ◌>>=◌ : Exec S A → (A → Exec S B) → Exec S B
  ◌>>=◌ m f s = continue f (m s)

  abbrev pub ◌>>◌ : Exec S A → Exec S B → Exec S B
  m >> n = m >>= λ _. n

-- `try { return await m } catch (e) { return await h(e) }`
module _ {ℓ} {S A : Type ℓ} where
  abbrev pub handle : (Thrown → Exec S A) → Result A × S → Result A × S
  handle h (ok a, s) = (ok a, s)
  handle h (err e, s) = h e s

  abbrev pub catch : Exec S A → (Thrown → Exec S A) → Exec S A
  catch m h s = handle h (m s)

abbrev pub modify {ℓ} : {S : Type ℓ} → (S → S) → Exec S (Unit {ℓ})
modify f s = (ok tt, f s)

-- An action that returned has returned from its first part.
pub continue-passed {ℓ} :
    {S A B : Type ℓ} (m : Result A × S) (f : A → Exec S B) (b : B) (s' : S)
    → continue f m ≡ (ok b, s')
    → (a : A) × (s : S) × (m ≡ (ok a, s)) × (f a s ≡ (ok b, s'))
continue-passed (ok a, s) f b s' h = (a, s, refl, h)
continue-passed (err e, s) f b s' h = cc

-- The same for a first part that reads no state.
pub lift-passed {ℓ} :
    {S A B : Type ℓ} (r : Result A) (f : A → Exec S B) (b : B) (s s' : S)
    → (lift r >>= f) s ≡ (ok b, s')
    → (a : A) × (r ≡ ok a) × (f a s ≡ (ok b, s'))
lift-passed (ok a) f b s s' h = (a, refl, h)
lift-passed (err e) f b s s' h = cc
