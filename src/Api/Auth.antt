-- ===== src/Api/Auth.antt =====
-- apps/api/src/trpc/routers/auth.ts, and the middleware of the plain routes in
-- apps/api/src/middleware. What the auth library answers is an argument.
pub mod Agreement
use mikrotikbandwidthmonitor.Prelude.Bytes.{Text, codes}
use mikrotikbandwidthmonitor.Prelude.{if◌then◌else◌, Result, ok, err, some, ℕ, Bool, none, Option}
use mikrotikbandwidthmonitor.Api.Schema.{Uuid, active}
use mikrotikbandwidthmonitor.Api.Context.{
  truthy, ApiError, internal, SessionUser, Context, authed_procedure, AuthSession, or_else,
}

unfoldable pub get_session : Context → Option SessionUser
get_session ctx = ctx.user

-- `signOut`; the argument is whether the library signed the session out.
unfoldable pub sign_out : Bool → Context → Result ApiError (Unit {0})
sign_out signed_out ctx = authed_procedure ctx (λ user. if signed_out then ok tt else err internal)

-- What a middleware sets for the handlers behind it.
pub record Variables : Type 0 where
  pub session : AuthSession
  pub org_id : Option Uuid

-- A middleware answers itself or calls `next`.
pub data Passed : Type 0 where
  answer : (status : ℕ) (error : Text) → Passed
  next : Variables → Passed

unfoldable pub auth_middleware : Option AuthSession → Passed
auth_middleware none = answer 401 (codes "Unauthorized")
auth_middleware (some session) = next (record { session = session; org_id = none })

abbrev pub with_org : AuthSession → Option Uuid → Passed
with_org session none = answer 403 (codes "No active organisation")
with_org session (some org) = next (record { session = session; org_id = some org })

unfoldable pub org_auth_middleware : Option AuthSession → Option Uuid → Passed
org_auth_middleware none header = answer 401 (codes "Unauthorized")
org_auth_middleware (some session) header =
    with_org session (truthy (or_else header session.active_organization_id))

-- The settings that `rlsMiddleware` writes, if it writes any; 0 stands for the empty text.
pub record RlsSettings : Type 0 where
  pub current_org_id : Uuid
  pub current_user_id : Uuid

abbrev pub or_empty : Option Uuid → Uuid
or_empty none = 0
or_empty (some id) = id

unfoldable pub rls_middleware : Option Uuid → Option Uuid → Option RlsSettings
rls_middleware org user = elim (truthy org) [
  | some o ↦ some (record { current_org_id = o; current_user_id = or_empty user })
  | none ↦ elim (truthy user) [
    | some u ↦ some (record { current_org_id = or_empty org; current_user_id = u })
    | none ↦ none
  ]
]

-- `setRlsContext`
unfoldable pub set_rls_context : Uuid → Uuid → RlsSettings
set_rls_context org user = record { current_org_id = org; current_user_id = user }
