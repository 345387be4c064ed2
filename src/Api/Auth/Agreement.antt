-- ===== src/Api/Auth/Agreement.antt =====
-- The two ways to the organization of a request: apps/api/src/middleware/auth.ts for plain routes and
-- apps/api/src/trpc/context.ts for procedures.
use mikrotikbandwidthmonitor.Prelude.Bytes.{codes}
use mikrotikbandwidthmonitor.Prelude.{
  inl, inr, ◌⊎◌, ◌<◌, some_inj, sym, ◌∙◌, arith, zero, ◌≡◌, suc, refl, Option, some, none,
}
use mikrotikbandwidthmonitor.Api.Auth.{answer, auth_middleware, org_auth_middleware, next}
use mikrotikbandwidthmonitor.Api.Schema.{Uuid}
use mikrotikbandwidthmonitor.Api.Context.{AuthSession, create_context, truthy}

-- The organization that a request names: that of its header, or without a header that of its session.
-- An empty text names none.
abbrev pub Names : AuthSession → (header : Option Uuid) → Uuid → Type 0
Names s header org =
    (0 < org) × ((header ≡ some org) ⊎ ((header ≡ none) × (s.active_organization_id ≡ some org)))

-- The request is passed on for the organization that it names, and procedures act for the same one.
abbrev pub PassedOn : AuthSession → (header membership : Option Uuid) → Type 0
PassedOn s header membership =
    (org : Uuid) × Names s header org
    × (org_auth_middleware (some s) header ≡ next (record { session = s; org_id = some org }))
    × ((create_context (some s) header membership).org ≡ some org)

-- The request names none and is answered with 403; procedures act for the first membership.
abbrev pub Forbidden : AuthSession → (header membership : Option Uuid) → Type 0
Forbidden s header membership =
    ((org : Uuid) → ¬ Names s header org)
    × (org_auth_middleware (some s) header ≡ answer 403 (codes "No active organisation"))
    × ((create_context (some s) header membership).org ≡ truthy membership)

named_or_not :
    (s : AuthSession) (header membership : Option Uuid)
    → PassedOn s header membership ⊎ Forbidden s header membership
unfolding create_context org_auth_middleware
named_or_not s (some zero) membership = inr (
  λ org h.
      let (positive, named) = h in elim named [ inl e ↦ omega (arith, some_inj e) | inr n ↦ cc ],
  refl,
  refl,
)
named_or_not s (some (suc n)) membership = inl (suc n, (omega arith, inl refl), refl, refl)
named_or_not s none membership = by_session s.active_organization_id refl
  where
    by_session :
        (o : Option Uuid)
        → s.active_organization_id ≡ o
        → PassedOn s none membership ⊎ Forbidden s none membership
    by_session none e = inr (
      λ org h. let (positive, named) = h in elim named [ inl n ↦ cc | inr n ↦ cc ],
      rw (e, org_auth_middleware) refl,
      rw (e, create_context) refl,
    )
    by_session (some zero) e = inr (
      λ org h.
          let (positive, named) = h in
          elim named [ inl n ↦ cc | inr n ↦ omega (arith, some_inj (sym e ∙ n.1)) ],
      rw (e, org_auth_middleware) refl,
      rw (e, create_context) refl,
    )
    by_session (some (suc n)) e = inl (
      suc n,
      (omega arith, inr (refl, e)),
      rw (e, org_auth_middleware) refl,
      rw (e, create_context) refl,
    )

-- A request of a session names the organization of its header, or without a header that of its
-- session. Where it names one, the middleware passes the request on for it and the procedures act
-- for the same one; where it names none, the middleware answers 403 `No active organisation` and
-- the procedures act for the first membership of the user, if there is one. Without a session both
-- middlewares answer 401 and there is no user; with one, the middleware that asks for no
-- organization passes it on, and the procedures have its user.
pub org_auth_middleware-create_context :
    (s : AuthSession) (header membership : Option Uuid)
    → (PassedOn s header membership ⊎ Forbidden s header membership)
      × ((create_context (some s) header membership).user ≡ some s.user)
      × (auth_middleware (some s) ≡ next (record { session = s; org_id = none }))
      × (org_auth_middleware none header ≡ answer 401 (codes "Unauthorized"))
      × (auth_middleware none ≡ answer 401 (codes "Unauthorized"))
      × ((create_context none header membership).user ≡ none)
unfolding create_context org_auth_middleware auth_middleware
org_auth_middleware-create_context s header membership =
    (named_or_not s header membership, refl, refl, refl, refl, refl)
