-- ===== src/Store/Memory/Expected.antt =====
-- store/memory.ts: what a caller's expectations ask of a stored record, in words of equality.
use mcp_sso.Common.{Option, none, some, String, ℕ, true, ◌≡◌, ◌↔◌, refl, arith, eq_iff, meets}
use mcp_sso.Store.{Generation, omitted, null, number, meets_generation}

-- The generation that a caller expects, where it expects one.
abbrev pub IsOf : Option ℕ → Generation → Type 0
IsOf none g = Unit
IsOf (some e) g = g ≡ number e

pub IsOf-iff : (g : Option ℕ) (v : Generation) → (meets_generation g v ≡ true) ↔ IsOf g v
IsOf-iff none v = ((λ h. tt), (λ h. refl))
IsOf-iff (some e) omitted = ((λ h. cc), (λ h. cc))
IsOf-iff (some e) null = ((λ h. cc), (λ h. cc))
IsOf-iff (some e) (number n) = ((λ h. ground arith), (λ h. ground arith))

-- The resource that a caller expects, where it expects one.
abbrev pub IsFor : Option String → Option String → Type 0
IsFor none v = Unit
IsFor (some e) v = v ≡ some e

pub IsFor-iff : (r v : Option String) → (meets r v ≡ true) ↔ IsFor r v
IsFor-iff none v = ((λ h. tt), (λ h. refl))
IsFor-iff (some e) none = ((λ h. cc), (λ h. cc))
IsFor-iff (some e) (some x) = ((λ h. ground (arith, eq_iff x e)), (λ h. ground (arith, eq_iff x e)))
