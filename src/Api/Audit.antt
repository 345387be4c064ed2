-- ===== src/Api/Audit.antt =====
-- apps/api/src/trpc/routers/audit.ts: the audit trail of an organization, with its filters.
-- Entries of one time keep one order here, which PostgreSQL leaves open between queries. The input
-- of `list`: the empty text and a missing one are the same to the filters.
pub mod Ownership
use mikrotikbandwidthmonitor.Prelude.Bytes.{Text, text_eq}
use mikrotikbandwidthmonitor.Prelude.{
  leb, ◌==◌, take, drop, Result, ok, ◌++◌, ℕ, ◌∷◌, none, [], some, Option, false, true, List, ◌&&◌,
  Bool,
}
use mikrotikbandwidthmonitor.Api.Database.{Engine}
use mikrotikbandwidthmonitor.Api.Schema.{Uuid, User, AuditLog}
use mikrotikbandwidthmonitor.Api.Context.{ApiError, Context, protected_procedure}

pub record AuditInput : Type 0 where
  pub action : Option Text
  pub actor_user_id : Option Uuid
  pub device_id : Option Uuid
  pub actor_type : Option Text
  pub from : Option ℕ
  pub to : Option ℕ
  pub limit : ℕ
  pub offset : ℕ

-- A row of the answer: an entry, and the name and the email of its actor.
pub record AuditEntry : Type 0 where
  pub log : AuditLog
  pub actor_name : Option Text
  pub actor_email : Option Text

abbrev pub without_actor : AuditLog → AuditEntry
without_actor l = record { log = l; actor_name = none; actor_email = none }

abbrev pub by_user : AuditLog → User → AuditEntry
by_user l u = record { log = l; actor_name = u.name; actor_email = some u.email }

-- The rows of one entry in the left join, from the users that match.
unfoldable pub joined_with : AuditLog → List User → List AuditEntry
joined_with l [] = []
joined_with l (u ∷ us) = by_user l u ∷ joined_with l us

abbrev pub left_joined : AuditLog → List User → List AuditEntry
left_joined l [] = without_actor l ∷ []
left_joined l (u ∷ us) = joined_with l (u ∷ us)

abbrev pub by_from : Option ℕ → ℕ → Bool
by_from none at = true
by_from (some t) at = leb t at

abbrev pub by_to : Option ℕ → ℕ → Bool
by_to none at = true
by_to (some t) at = leb at t

abbrev pub by_id : Option Uuid → Option Uuid → Bool
by_id none id = true
by_id (some wanted) none = false
by_id (some wanted) (some id) = id == wanted

abbrev pub by_type : Option Text → Text → Bool
by_type none t = true
by_type (some wanted) t = text_eq t wanted

module _ (engine : Engine) where
  -- `if (input.action) …`
  abbrev pub by_action : Option Text → Text → Bool
  by_action none action = true
  by_action (some []) action = true
  by_action (some (c ∷ s)) action = engine.ilike action (b'%' ∷ (c ∷ s ++ (b'%' ∷ [])))

  unfoldable pub log_matches : Uuid → AuditInput → AuditLog → Bool
  log_matches org input l =
      l.org_id == org
      && (by_action input.action l.action
          && (by_id input.actor_user_id l.actor_user_id
              && (by_id input.device_id l.target_device_id
                  && (by_type input.actor_type l.actor_type
                      && (by_from input.from l.created_at && by_to input.to l.created_at)))))

  abbrev pub actors : engine.Table User → Option Uuid → List User
  actors users none = []
  actors users (some id) = engine.select (λ u. u.id == id) users

  -- `.leftJoin(users, eq(auditLogs.actorUserId, users.id))`
  unfoldable pub with_actors : engine.Table User → List AuditLog → List AuditEntry
  unfolding joined_with
  with_actors users [] = []
  with_actors users (l ∷ ls) = left_joined l (actors users l.actor_user_id) ++ with_actors users ls

  unfoldable pub audit_rows :
      engine.Table AuditLog → engine.Table User → Uuid → AuditInput → List AuditEntry
  unfolding with_actors
  audit_rows logs users org input =
      engine.order_desc (λ e. e.log.created_at)
        (with_actors users (engine.select (log_matches org input) logs))

  unfoldable pub list_audit :
      Context
      → engine.Table AuditLog
      → engine.Table User
      → AuditInput
      → Result ApiError (List AuditEntry)
  unfolding audit_rows
  list_audit ctx logs users input =
      protected_procedure ctx
        (λ user org. ok (take input.limit (drop input.offset (audit_rows logs users org input))))
