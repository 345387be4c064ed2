-- ===== src/Api/Schema.antt =====
-- The rows of packages/db/src/schema. A uuid is a number, a timestamp its milliseconds, a jsonb or
-- a numeric value its text; a column that may be null is an Option.
use mikrotikbandwidthmonitor.Prelude.{ℕ, Bool, Option, List}
use mikrotikbandwidthmonitor.Prelude.Bytes.{Text}
use mikrotikbandwidthmonitor.RouterOs.Uptime.{Number}
use mikrotikbandwidthmonitor.Api.Database.{Engine}

abbrev pub Uuid : Type 0
Uuid = ℕ

pub data ConnectionType : Type 0 where
  agent rest binary_api snmp : ConnectionType

pub data DeviceStatus : Type 0 where
  online offline warning unreachable : DeviceStatus

pub record Device : Type 0 where
  pub id : Uuid
  pub org_id : Uuid
  pub name : Text
  pub description : Option Text
  pub connection_type : ConnectionType
  pub ip_address : Option Text
  pub api_port : ℕ
  pub api_username_enc : Option Text
  pub api_password_enc : Option Text
  pub snmp_community : Option Text
  pub ros_version : Option Text
  pub board_name : Option Text
  pub model : Option Text
  pub mac_address : Option Text
  pub status : DeviceStatus
  pub last_seen_at : Option ℕ
  pub uptime_seconds : Option ℕ
  pub site_id : Option Uuid
  pub tags : List Text
  pub created_at : ℕ
  pub updated_at : ℕ

pub record DeviceMetric : Type 0 where
  pub device_id : Uuid
  pub collected_at : ℕ
  pub cpu_load : Option Number
  pub free_memory : Option Number
  pub total_memory : Option Number
  pub uptime : Option ℕ
  pub interfaces : Text

pub record AgentEnrollment : Type 0 where
  pub id : Uuid
  pub device_id : Uuid
  pub enroll_token : Text
  pub token_used : Bool
  pub agent_version : Option Text
  pub client_cert_fingerprint : Option Text
  pub last_connected_at : Option ℕ
  pub connected_ip : Option Text
  pub created_at : ℕ

pub data SnapshotTrigger : Type 0 where
  scheduled manual pre_change post_change : SnapshotTrigger

pub record ConfigSnapshot : Type 0 where
  pub id : Uuid
  pub device_id : Uuid
  pub org_id : Uuid
  pub taken_at : ℕ
  pub triggered_by : SnapshotTrigger
  pub triggered_by_user_id : Option Uuid
  pub export_rsc : Text
  pub size_bytes : Option ℕ
  pub storage_key : Option Text
  pub checksum : Option Text

pub data CommandStatus : Type 0 where
  pending sent acked failed rolled_back : CommandStatus

pub record PendingCommand : Type 0 where
  pub id : Uuid
  pub device_id : Uuid
  pub org_id : Uuid
  pub idempotency_key : Uuid
  pub command_type : Text
  pub payload : Text
  pub status : CommandStatus
  pub created_by : Option Uuid
  pub created_at : ℕ
  pub sent_at : Option ℕ
  pub acked_at : Option ℕ
  pub result : Option Text
  pub error_message : Option Text
  pub rollback_payload : Option Text

pub data AlertOperator : Type 0 where
  gt lt gte lte eq : AlertOperator

pub record AlertRule : Type 0 where
  pub id : Uuid
  pub org_id : Uuid
  pub device_id : Option Uuid
  pub name : Text
  pub metric : Text
  pub operator : AlertOperator
  pub threshold : Text
  pub channels : List Text
  pub cooldown_minutes : ℕ
  pub enabled : Bool
  pub created_at : ℕ

pub record AlertEvent : Type 0 where
  pub id : Uuid
  pub rule_id : Uuid
  pub device_id : Uuid
  pub org_id : Uuid
  pub fired_at : ℕ
  pub resolved_at : Option ℕ
  pub metric_value : Text
  pub notified : Bool

pub data OrgRole : Type 0 where
  owner admin operator viewer : OrgRole

pub record OrgMembership : Type 0 where
  pub id : Uuid
  pub org_id : Uuid
  pub user_id : Uuid
  pub role : OrgRole
  pub invited_by : Option Uuid
  pub accepted_at : Option ℕ
  pub created_at : ℕ

pub record Organization : Type 0 where
  pub id : Uuid
  pub name : Text
  pub slug : Text
  pub plan_id : Uuid
  pub owner_user_id : Uuid
  pub settings : Text
  pub stripe_customer_id : Option Text
  pub created_at : ℕ
  pub updated_at : ℕ

pub record User : Type 0 where
  pub id : Uuid
  pub email : Text
  pub name : Option Text
  pub avatar_url : Option Text
  pub mfa_enabled : Bool
  pub last_login_at : Option ℕ
  pub created_at : ℕ

pub record Site : Type 0 where
  pub id : Uuid
  pub org_id : Uuid
  pub name : Text
  pub location : Option Text
  pub latitude : Option Text
  pub longitude : Option Text
  pub created_at : ℕ

pub record AuditLog : Type 0 where
  pub id : Uuid
  pub org_id : Uuid
  pub actor_user_id : Option Uuid
  pub actor_api_key_id : Option Uuid
  pub actor_type : Text
  pub action : Text
  pub target_device_id : Option Uuid
  pub target_resource : Option Text
  pub payload_before : Option Text
  pub payload_after : Option Text
  pub ip_address : Option Text
  pub user_agent : Option Text
  pub created_at : ℕ

pub record Plan : Type 0 where
  pub id : Uuid
  pub name : Text
  pub max_devices : Option ℕ
  pub max_users : Option ℕ
  pub metric_retention_days : ℕ
  pub features : List Text
  pub stripe_price_id : Option Text
  pub price_per_device_usd : Option Text
  pub created_at : ℕ

pub data SubscriptionStatus : Type 0 where
  active past_due canceled trialing : SubscriptionStatus

pub record Subscription : Type 0 where
  pub id : Uuid
  pub org_id : Uuid
  pub plan_id : Uuid
  pub status : SubscriptionStatus
  pub stripe_subscription_id : Option Text
  pub current_period_start : Option ℕ
  pub current_period_end : Option ℕ
  pub trial_end : Option ℕ
  pub canceled_at : Option ℕ
  pub created_at : ℕ
  pub updated_at : ℕ

-- The tables of the tenants.
pub record OrgStore (engine : Engine) : Type 0 where
  pub organizations : engine.Table Organization
  pub org_memberships : engine.Table OrgMembership
  pub users : engine.Table User

-- The tables that belong to the devices, and the queues of Redis.
pub data Job : Type 0 where
  refresh : (device_id org_id requested_at : ℕ) → Job
  backup : (device_id org_id user_id requested_at : ℕ) → Job

pub record Store (engine : Engine) : Type 0 where
  pub devices : engine.Table Device
  pub device_metrics : engine.Table DeviceMetric
  pub agent_enrollments : engine.Table AgentEnrollment
  pub config_snapshots : engine.Table ConfigSnapshot
  pub pending_commands : engine.Table PendingCommand
  pub alert_rules : engine.Table AlertRule
  pub alert_events : engine.Table AlertEvent
  pub jobs : List Job
