-- ===== src/Middleware.antt =====
-- supervictor/endpoint/src/middleware.rs: the client's certificate subject, the admin gate and the
-- guard of the log. The headers of a request are those of the `http` crate, and `get` reads one as
-- `headers.get(name)` followed by `to_str().ok()` does.
pub mod Admin
mod Examples
use super_victor.Prelude.{
  ℕ, Bool, true, false, ◌&&◌, not, Option, none, some, List, [], ◌∷◌, ◌++◌, if◌then◌else◌, ◌>>=◌,
  any, filter,
}
use super_victor.Prelude.Text.{Text, codes}
use super_victor.Prelude.Str.{trim, split, split_once, eq_ignore_ascii_case, is_control}
use super_victor.Json.{Parsed, value, invalid, SerdeJson}

-- `ctx.get("identity").and_then(…)`, down to the subject.
unfoldable pub context_subject : {V : Type 0} → SerdeJson V → V → Option Text
context_subject json ctx = do
  id ← json.get ctx (codes "identity")
  cert ← json.get id (codes "clientCert")
  subject ← json.get cert (codes "subjectDN")
  json.as_str subject

unfoldable pub of_context : {V : Type 0} → SerdeJson V → Parsed V → Option Text
of_context json (value ctx) = context_subject json ctx
of_context json (invalid detail) = none

unfoldable pub extract_client_subject :
    {V : Type 0} → SerdeJson V → (Text → Option Text) → Option Text
extract_client_subject json get =
    let context = get (codes "x-amzn-request-context") >>= λ ctx_str.
    of_context json (json.value_from_str ctx_str) in
    elim context [ some subject ↦ some subject | none ↦ get (codes "x-ssl-client-subject-dn") ]

-- The closure of `is_admin_subject`; a component with no `=` has the empty value.
unfoldable pub is_admin_component : Text → Bool
is_admin_component component = elim (split_once b'=' (trim component)) [
  | none ↦ false
  | some (key, val) ↦
      eq_ignore_ascii_case (trim key) (codes "OU")
      && eq_ignore_ascii_case (trim val) (codes "admin")
]

unfoldable pub is_admin_subject : Text → Bool
is_admin_subject dn = any is_admin_component (split b',' dn)

-- A 403 with its text, or what the rest of the route answers.
pub data Response (A : Type 0) : Type 0 where
  forbidden : Text → Response A
  next : A → Response A

unfoldable pub forbid : {A : Type 0} → Text → Response A
forbid reason = forbidden (codes "forbidden: " ++ reason)

unfoldable pub require_admin : {A : Type 0} → Option Text → A → Response A
unfolding forbid
require_admin (some subject) run =
    if is_admin_subject subject then next run else forbid (codes "admin certificate required")
require_admin none run = forbid (codes "client certificate required")

unfoldable pub sanitize_for_log : Text → Text
sanitize_for_log s = filter (λ c. not (is_control c)) s
