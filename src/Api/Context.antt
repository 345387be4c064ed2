-- ===== src/Api/Context.antt =====
-- The guards of apps/api/src/trpc/init.ts and the errors that the routers throw.
use mikrotikbandwidthmonitor.Prelude.{Result, err, zero, suc, Option, none, some}
use mikrotikbandwidthmonitor.Prelude.Bytes.{Text}
use mikrotikbandwidthmonitor.Api.Schema.{Uuid}

-- The codes of TRPCError; `database` is a statement that PostgreSQL refused.
pub data ApiError : Type 0 where
  unauthorized forbidden not_found bad_request not_implemented internal database : ApiError

pub record SessionUser : Type 0 where
  pub id : Uuid
  pub email : Text
  pub name : Option Text
  pub image : Option Text

-- `TRPCContext`, less the handles that every request shares.
pub record Context : Type 0 where
  pub user : Option SessionUser
  pub org : Option Uuid

-- `authedProcedure`
abbrev pub authed_procedure :
    {A : Type 0} → Context → (SessionUser → Result ApiError A) → Result ApiError A
authed_procedure ctx next = elim (ctx.user) [ none ↦ err unauthorized | some user ↦ next user ]

-- `protectedProcedure`
abbrev pub protected_procedure :
    {A : Type 0} → Context → (SessionUser → Uuid → Result ApiError A) → Result ApiError A
protected_procedure ctx next = elim (ctx.user) [
  | none ↦ err unauthorized
  | some user ↦ elim (ctx.org) [ none ↦ err forbidden | some org ↦ next user org ]
]

-- The session that the auth library finds for a request.
pub record AuthSession : Type 0 where
  pub user : SessionUser
  pub active_organization_id : Option Uuid

-- `a ?? b`
abbrev pub or_else : Option Uuid → Option Uuid → Option Uuid
or_else none later = later
or_else (some org) later = some org

-- 0 stands for the empty text, which `!orgId` takes for no organization.
abbrev pub truthy : Option Uuid → Option Uuid
truthy none = none
truthy (some zero) = none
truthy (some (suc org)) = some (suc org)

-- `createContext`: the organization that the header names, or else the session; if that is none, the
-- first membership that the database gives (`none` where there is none or the query fails).
unfoldable pub create_context : Option AuthSession → Option Uuid → Option Uuid → Context
create_context none header membership = record { user = none; org = none }
create_context (some session) header membership = record {
  user = some session.user;
  org = truthy (or_else (truthy (or_else header session.active_organization_id)) membership);
}
