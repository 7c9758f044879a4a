-- ===== src/Authorize/Frame.antt =====
-- authorize.ts: the reads of the store change nothing in it, and what a returned read has read.
use mcp_sso.Common.{
  ℕ, String, List, [], ◌∷◌, ◌++◌, Option, none, some, ◌||◌, ◌≡◌, inl, inr, arith, includes, Within,
  includes-append, includes-keep_if, Bool, true, ◌&&◌, refl, keep_if-Within, Distinct-keep_if,
  All-keep_if, All-append,
}
use mcp_sso.Errors.{ok, call_port, Result-cases}
use mcp_sso.Scopes.{push_new}
use mcp_sso.Scopes.Laws.{includes-push_new, IsGranted, push_new-IsGranted}
use mcp_sso.Store.Checks.{assert_store_instance_id}
use mcp_sso.Store.Memory.State.{MemoryStore, ensure_open}
use mcp_sso.Store.Memory.Codes.{get_store_instance_id}
use mcp_sso.Store.Memory.Frame.{find_scopes-frame}
use mcp_sso.Authorize.Env.{AuthorizeConfig, AuthorizePlatform, dcr_generation}
use mcp_sso.Clock.{finite_clock_snapshot}
use mcp_sso.Authorize.Prepare.{store_instance_id, prior_grants, narrowed}
use mcp_sso.Authorize.Approve.{dedupe, dedupe_onto, granted_scopes}

pub store_instance_id-frame : (s : MemoryStore) → (store_instance_id s).1 ≡ s
unfolding store_instance_id get_store_instance_id ensure_open call_port assert_store_instance_id
store_instance_id-frame s = ground arith

pub store_instance_id-eq :
    (s s' : MemoryStore) (id : String)
    → store_instance_id s ≡ (ok id, s')
    → (s.store_instance_id ≡ id) × (s' ≡ s)
unfolding store_instance_id get_store_instance_id ensure_open call_port assert_store_instance_id
store_instance_id-eq s s' id h = (ground arith, ground arith)

module _ (platform : AuthorizePlatform) (config : AuthorizeConfig) where
  pub prior_grants-frame :
      (subject client_id : String) (clock : Option ℕ) (s : MemoryStore)
      → (prior_grants platform config subject client_id clock s).1 ≡ s
  unfolding prior_grants
  prior_grants-frame subject client_id clock s =
      elim (Result-cases (finite_clock_snapshot clock 0)) [
        | inr (e, bad) ↦ ground (arith, bad)
        | inl (now, good) ↦ ground (
          arith,
          good,
          find_scopes-frame subject client_id (platform.jwt.iso now) (dcr_generation config)
              (some config.resource) s,
        )
      ]

includes-dedupe_onto :
    (out vs : List String) (s : String)
    → includes (dedupe_onto out vs) s ≡ (includes out s || includes vs s)
unfolding dedupe_onto includes
includes-dedupe_onto out [] s = ground arith
includes-dedupe_onto out (v ∷ vs) s =
    ground (arith, includes-dedupe_onto (push_new out v) vs s, includes-push_new out v s)

pub includes-dedupe : (vs : List String) (s : String) → includes (dedupe vs) s ≡ includes vs s
unfolding dedupe includes
includes-dedupe vs s = includes-dedupe_onto [] vs s

dedupe_onto-IsGranted :
    (catalog out vs : List String)
    → IsGranted catalog out
    → Within catalog vs
    → IsGranted catalog (dedupe_onto out vs)
unfolding dedupe_onto
dedupe_onto-IsGranted catalog out [] g w = g
dedupe_onto-IsGranted catalog out (v ∷ vs) g w =
    dedupe_onto-IsGranted catalog (push_new out v) vs (push_new-IsGranted catalog out v g w.0) w.1

-- The texts of a list that a ceiling, where there is one, holds.
abbrev pub UnderCeiling : Option (List String) → List String → Type 0
UnderCeiling none scopes = Unit
UnderCeiling (some ceiling) scopes = Within ceiling scopes

-- Whether a ceiling, where there is one, holds a text.
abbrev pub holds : Option (List String) → String → Bool
holds none s = true
holds (some ceiling) s = includes ceiling s

includes-narrowed :
    (ceiling : Option (List String)) (scopes : List String) (w : String)
    → includes (narrowed ceiling scopes) w ≡ (includes scopes w && holds ceiling w)
includes-narrowed none scopes w = ground arith
includes-narrowed (some ceiling) scopes w = includes-keep_if (includes ceiling) scopes w

pub includes-granted_scopes :
    (ceiling allowed : Option (List String)) (consented scopes prior : List String) (w : String)
    → allowed ≡ ceiling
    → consented ≡ scopes
    → includes (granted_scopes ceiling consented prior) w
      ≡ ((includes scopes w || includes prior w) && holds allowed w)
includes-granted_scopes ceiling allowed consented scopes prior w e h =
    rw
      (
        e,
        ← h,
        includes-narrowed ceiling (dedupe (consented ++ prior)) w,
        includes-dedupe (consented ++ prior) w,
        includes-append consented prior w,
      )
      refl

pub narrowed-UnderCeiling :
    (ceiling : Option (List String)) (scopes : List String)
    → UnderCeiling ceiling (narrowed ceiling scopes)
narrowed-UnderCeiling none scopes = tt
narrowed-UnderCeiling (some ceiling) scopes = keep_if-Within ceiling scopes

pub narrowed-IsGranted :
    (catalog : List String) (ceiling : Option (List String)) (scopes : List String)
    → IsGranted catalog scopes
    → IsGranted catalog (narrowed ceiling scopes)
narrowed-IsGranted catalog none scopes g = g
narrowed-IsGranted catalog (some ceiling) scopes (d, w) =
    (Distinct-keep_if (includes ceiling) scopes d, All-keep_if _ (includes ceiling) scopes w)

pub dedupe-IsGranted :
    (catalog xs ys : List String)
    → Within catalog xs
    → Within catalog ys
    → IsGranted catalog (dedupe (xs ++ ys))
unfolding dedupe
dedupe-IsGranted catalog xs ys h k =
    dedupe_onto-IsGranted catalog [] (xs ++ ys) (tt, tt) (All-append _ xs ys h k)
