-- ===== src/Subject.antt =====
-- identity-boundary.ts: the shape of a verified subject.
-- A text here is a sequence of scalar values, so the test for lone surrogates always passes.
use mcp_sso.Common.{
  ℕ, String, Bool, not, ◌||◌, ◌≡◌, codes, trim, same_codes, ltb, nat_eq, any, length, if◌then◌else◌,
  has_prefix, arith,
}
use mcp_sso.Errors.{Result, ok, err, type_error}

abbrev pub max_subject_scalars : ℕ
max_subject_scalars = 384

unfoldable pub identity_subject : String → Result String
unfolding any
identity_subject value =
    let cs = codes value in
    if any (λ c. nat_eq c 0xfffd) cs || not (same_codes cs (trim cs))
    then err (type_error "identity subject is malformed")
    else if ltb max_subject_scalars (length cs)
    then err (type_error "identity subject is too long")
    else if nat_eq (length cs) 0
    then err (type_error "identity subject is empty")
    else ok value

-- `subject.startsWith("mcc_")`: the namespace reserved for machine clients.
unfoldable pub is_machine_subject : String → Bool
unfolding has_prefix
is_machine_subject subject = has_prefix (codes subject) (codes "mcc_")

-- A subject that passes is handed on unchanged.
pub identity_subject-eq :
    (value : String) {out : String} → identity_subject value ≡ ok out → value ≡ out
unfolding identity_subject
identity_subject-eq value h = ground arith
