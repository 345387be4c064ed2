-- ===== src/Api/Audit/Ownership.antt =====
-- Whose entries apps/api/src/trpc/routers/audit.ts lists.
use mikrotikbandwidthmonitor.Prelude.{◌≡◌, ◌⊎◌, [], true, some}
use mikrotikbandwidthmonitor.Api.Audit.{
  AuditInput, AuditEntry, without_actor, by_user, by_from, by_to, actors,
}
use mikrotikbandwidthmonitor.Api.Database.{Engine}
use mikrotikbandwidthmonitor.Api.Schema.{Uuid, User, AuditLog}

module _ (engine : Engine) where
  -- An entry with its actor: the user that the entry names, or none where there is no such user.
  abbrev pub HasActor : engine.Table User → AuditEntry → Type 0
  HasActor users e =
      ((e ≡ without_actor e.log) × (actors engine users e.log.actor_user_id ≡ []))
      ⊎ ((u : User) × engine.Has users u
          × (e.log.actor_user_id ≡ some u.id)
          × (e ≡ by_user e.log u))

  -- An entry of the organization, in the table and in the range of dates.
  abbrev pub IsOwnLog : engine.Table AuditLog → Uuid → AuditInput → AuditLog → Type 0
  IsOwnLog logs org input l =
      engine.Has logs l
      × (l.org_id ≡ org)
      × (by_from input.from l.created_at ≡ true)
      × (by_to input.to l.created_at ≡ true)

  module _ (users : engine.Table User) (P : AuditLog → Type 0) where
    abbrev IsRow : AuditEntry → Type 0
    IsRow e = P e.log × HasActor users e
