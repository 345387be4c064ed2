-- ===== src/Api/Billing.antt =====
-- apps/api/src/trpc/routers/billing.ts: the plan of an organization, and the two procedures that wait
-- for Stripe.
pub mod Ownership
use mikrotikbandwidthmonitor.Prelude.Bytes.{Text}
use mikrotikbandwidthmonitor.Prelude.{
  ◌==◌, if◌then◌else◌, Result, err, ◌>>=◌, none, Option, Bool, ◌∷◌, false, map, some, List, [],
  ◌++◌, true,
}
use mikrotikbandwidthmonitor.Api.Database.{Engine, first}
use mikrotikbandwidthmonitor.Api.Schema.{Uuid, Organization, Plan, Subscription}
use mikrotikbandwidthmonitor.Api.Context.{
  ApiError, bad_request, not_implemented, Context, protected_procedure,
}
use mikrotikbandwidthmonitor.Api.Orgs.{found_or}

pub record PlanAnswer : Type 0 where
  pub plan : Plan
  pub subscription : Option Subscription

-- `if (!text)`
abbrev pub given : Option Text → Bool
given none = false
given (some []) = false
given (some (c ∷ s)) = true

module _ (engine : Engine) where
  -- The tables that the procedures read.
  pub record BillingStore : Type 0 where
    pub organizations : engine.Table Organization
    pub plans : engine.Table Plan
    pub subscriptions : engine.Table Subscription

  -- The rows of one plan in the left join, from the subscriptions that match.
  abbrev pub with_subscriptions : Plan → List Subscription → List PlanAnswer
  with_subscriptions p [] = record { plan = p; subscription = none } ∷ []
  with_subscriptions p (s ∷ ss) = map (λ x. record { plan = p; subscription = some x }) (s ∷ ss)

  unfoldable pub with_plans : List Subscription → List Plan → List PlanAnswer
  with_plans ss [] = []
  with_plans ss (p ∷ ps) = with_subscriptions p ss ++ with_plans ss ps

  -- The inner join with the plans.
  unfoldable pub plan_rows : BillingStore → List Subscription → List Organization → List PlanAnswer
  unfolding with_plans
  plan_rows store ss [] = []
  plan_rows store ss (o ∷ os) =
      with_plans ss (engine.select (λ p. p.id == o.plan_id) store.plans) ++ plan_rows store ss os

  unfoldable pub get_plan : Context → BillingStore → Result ApiError PlanAnswer
  unfolding plan_rows
  get_plan ctx store = protected_procedure ctx (λ user org. found_or engine (
      first (
        plan_rows store (engine.select (λ s. s.org_id == org) store.subscriptions)
          (engine.select (λ o. o.id == org) store.organizations))))

  -- `createCheckoutSession`, whose answer would be the address of a page
  unfoldable pub create_checkout_session : Context → BillingStore → Uuid → Result ApiError Text
  create_checkout_session ctx store plan_id = protected_procedure ctx (λ user org.
      found_or engine (first (engine.select (λ p. p.id == plan_id) store.plans)) >>= λ plan.
      if given plan.stripe_price_id then err not_implemented else err bad_request)

  -- `orgRow?.stripeCustomerId`
  abbrev pub customer_of : Option Organization → Option Text
  customer_of none = none
  customer_of (some o) = o.stripe_customer_id

  unfoldable pub create_portal_session : Context → BillingStore → Result ApiError Text
  create_portal_session ctx store = protected_procedure ctx (λ user org.
      if given (customer_of (first (engine.select (λ o. o.id == org) store.organizations)))
      then err not_implemented
      else err bad_request)
