-- ===== src/Redirect/Parts.antt =====
-- redirect-entry.ts: what the grammar's tests on the parsed URL promise of its parts.
use mcp_sso.Common.{
  ℕ, ◌≢◌, ◌==◌, All, String, List, [], ◌∷◌, ◌++◌, some, Bool, true, ◌≡◌, refl, ◌⊎◌, inl, inr, arith,
  eq_iff, includes, any, codes, Bool-cases, none,
}
use mcp_sso.Redirect.Entry.{
  Url, RedirectEntryForm, url_problem, classify_path, is_canonical, has_segment, ends_with_dot,
  origin, exact_uri, is_loopback_host,
}

-- The root path is that of an origin; any other path has a segment.
abbrev pub IsForm : RedirectEntryForm → String → Type 0
IsForm origin path = path ≡ "/"
IsForm exact_uri path = (path ≢ "/") × ¬ All (λ c. c ≡ b'/') (codes path)

abbrev pub IsLoopback : String → Type 0
IsLoopback host = (host ≡ "localhost") ⊎ ((host ≡ "127.0.0.1") ⊎ (host ≡ "[::1]"))

has_segment-not_slashes : (path : List ℕ) → has_segment path ≡ true → ¬ All (λ c. c ≡ b'/') path
unfolding any
has_segment-not_slashes [] h k = ground (arith, h)
has_segment-not_slashes (c ∷ cs) h (here, later) =
    has_segment-not_slashes cs (ground (arith, h, here)) later

pub classified-IsForm :
    (url : Url) (form : RedirectEntryForm)
    → classify_path url ≡ some form
    → IsForm form url.pathname
unfolding classify_path
classified-IsForm url form h = elim (Bool-cases (url.pathname == "/")) [
  | inl root ↦
      let e : origin ≡ form = ground (arith, h, root) in rw (← e) ((eq_iff url.pathname "/").0 root)
  | inr other ↦ elim (Bool-cases (has_segment (codes url.pathname))) [
    | inl segment ↦
        let e : exact_uri ≡ form = ground (arith, h, other, segment) in
        rw (← e) (
          (λ root. ground (arith, other, (eq_iff url.pathname "/").1 root)),
          has_segment-not_slashes (codes url.pathname) segment,
        )
    | inr slashes ↦ ground (arith, h, other, slashes)
  ]
]

pub canonical_cases :
    (omitted : Bool) (value : String) (url : Url) (form : RedirectEntryForm)
    → is_canonical omitted value url form ≡ true
    → (value ≡ url.href)
      ⊎ ((omitted ≡ true) × (form ≡ origin) × (Prim.Native.String.◌++◌ value "/" ≡ url.href))
unfolding is_canonical
canonical_cases omitted value url origin h = elim (Bool-cases (value == url.href)) [
  | inl same ↦ inl ((eq_iff value url.href).0 same)
  | inr other ↦ inr (
    ground (arith, h, other),
    refl,
    (eq_iff (Prim.Native.String.◌++◌ value "/") url.href).0 (ground (arith, h, other)),
  )
]
canonical_cases omitted value url exact_uri h = inl ((eq_iff value url.href).0 (ground (arith, h)))

ends_with_dot-append : (xs : List ℕ) → ends_with_dot (xs ++ b'.' ∷ []) ≡ true
unfolding ends_with_dot
ends_with_dot-append [] = refl
ends_with_dot-append (x ∷ []) = refl
ends_with_dot-append (x ∷ y ∷ xs) = ends_with_dot-append (y ∷ xs)

pub url_undotted :
    (url : Url) → url_problem url ≡ none → (xs : List ℕ) → codes url.hostname ≢ xs ++ b'.' ∷ []
unfolding url_problem
url_undotted url h xs same =
    let dotted : ends_with_dot (codes url.hostname) ≡ true = rw same (ends_with_dot-append xs) in
    ground (arith, h, dotted)

is_loopback_host-IsLoopback : (host : String) → is_loopback_host host ≡ true → IsLoopback host
unfolding is_loopback_host includes
is_loopback_host-IsLoopback host h =
    ground (arith, h, eq_iff "localhost" host, eq_iff "127.0.0.1" host, eq_iff "[::1]" host)

pub url_secure :
    (url : Url)
    → url_problem url ≡ none
    → (url.protocol ≡ "https:") ⊎ ((url.protocol ≡ "http:") × IsLoopback url.hostname)
unfolding url_problem
url_secure url h = elim (Bool-cases (url.protocol == "https:")) [
  | inl tls ↦ inl ((eq_iff url.protocol "https:").0 tls)
  | inr other ↦ inr (
    ground (arith, h, other, eq_iff url.protocol "http:"),
    is_loopback_host-IsLoopback url.hostname
        (ground (arith, h, other, eq_iff url.protocol "http:")),
  )
]
