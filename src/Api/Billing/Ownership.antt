-- ===== src/Api/Billing/Ownership.antt =====
-- Whose plan apps/api/src/trpc/routers/billing.ts gives.
use mikrotikbandwidthmonitor.Prelude.{
  ◌==◌, ==_iff, All, All-append, All-widen, ok, List, some, inl, [], ◌≡◌, true, subst, ap, map, ◌∷◌,
  ◌⊎◌, refl, sym, inr, none, ◌∙◌,
}
use mikrotikbandwidthmonitor.Api.Devices.Tenancy.{member}
use mikrotikbandwidthmonitor.Api.Database.{Engine, first}
use mikrotikbandwidthmonitor.Api.Schema.{Uuid, Organization, Plan, Subscription}
use mikrotikbandwidthmonitor.Api.Context.{SessionUser}
use mikrotikbandwidthmonitor.Api.Orgs.{found_or}
use mikrotikbandwidthmonitor.Api.Billing.{
  PlanAnswer, BillingStore, with_subscriptions, with_plans, plan_rows, get_plan,
}

module _ (engine : Engine) where
  -- The subscription of an answer is one of the table, and of the organization.
  abbrev pub IsSubscribed : BillingStore engine → Uuid → PlanAnswer → Type 0
  IsSubscribed store org a =
      (a.subscription ≡ none)
      ⊎ ((s : Subscription) × (a.subscription ≡ some s)
          × engine.Has store.subscriptions s
          × (s.org_id ≡ org))

  -- The plan of the organization, which stands in the table, with a subscription of it or none.
  abbrev pub IsPlanOf : BillingStore engine → Uuid → PlanAnswer → Type 0
  IsPlanOf store org a =
      ((o : Organization) × engine.Has store.organizations o
        × (o.id ≡ org)
        × engine.Has store.plans a.plan
        × (a.plan.id ≡ o.plan_id))
      × IsSubscribed store org a

  module _ (store : BillingStore engine) (org : Uuid) where
    abbrev IsOwnSubscription : Subscription → Type 0
    IsOwnSubscription s = engine.Has store.subscriptions s × ((s.org_id == org) ≡ true)

    subscribed :
        (p : Plan) (ss : List Subscription)
        → All IsOwnSubscription ss
        → All
            (λ a. (a.plan ≡ p) × IsSubscribed store org a)
            (map (λ x. record { plan = p; subscription = some x }) ss)
    subscribed p [] h = tt
    subscribed p (s ∷ ss) ((there, mine), h) =
        ((refl, inr (s, refl, there, (==_iff s.org_id org).0 mine)), subscribed p ss h)

    plan-IsSubscribed :
        (p : Plan) (ss : List Subscription)
        → All IsOwnSubscription ss
        → All (λ a. (a.plan ≡ p) × IsSubscribed store org a) (with_subscriptions engine p ss)
    plan-IsSubscribed p [] h = ((refl, inl refl), tt)
    plan-IsSubscribed p (s ∷ ss) h = subscribed p (s ∷ ss) h

    own_plans :
        (o : Organization) (ss : List Subscription) (ps : List Plan)
        → engine.Has store.organizations o
        → o.id ≡ org
        → All IsOwnSubscription ss
        → All (λ p. engine.Has store.plans p × ((p.id == o.plan_id) ≡ true)) ps
        → All (IsPlanOf store org) (with_plans engine ss ps)
    unfolding with_plans
    own_plans o ss [] there mine h hs = tt
    own_plans o ss (p ∷ ps) there mine h ((known, hit), hs) =
        All-append (IsPlanOf store org) (with_subscriptions engine p ss) (with_plans engine ss ps)
          (All-widen (λ a. (a.plan ≡ p) × IsSubscribed store org a) (IsPlanOf store org)
            (λ a (same, s). (
              (
                o,
                there,
                mine,
                subst (engine.Has store.plans) (sym same) known,
                ap (λ (x : Plan). x.id) same ∙ (==_iff p.id o.plan_id).0 hit,
              ),
              s,
            ))
            (with_subscriptions engine p ss) (plan-IsSubscribed p ss h))
          (own_plans o ss ps there mine h hs)

    own_rows :
        (ss : List Subscription) (os : List Organization)
        → All IsOwnSubscription ss
        → All (λ o. engine.Has store.organizations o × ((o.id == org) ≡ true)) os
        → All (IsPlanOf store org) (plan_rows engine store ss os)
    unfolding plan_rows
    own_rows ss [] h hs = tt
    own_rows ss (o ∷ os) h ((there, mine), hs) =
        All-append (IsPlanOf store org) _ _
          (own_plans o ss _ there ((==_iff o.id org).0 mine) h
            (engine.selected (λ p. p.id == o.plan_id) store.plans))
          (own_rows ss os h hs)

    first_of :
        (xs : List PlanAnswer) {a : PlanAnswer}
        → All (IsPlanOf store org) xs
        → found_or engine (first xs) ≡ ok a
        → IsPlanOf store org a
    unfolding first
    first_of [] h e = cc
    first_of (x ∷ xs) (h, hs) e = let same : x ≡ _ = cc e in subst (IsPlanOf store org) same h

    -- The plan that `getPlan` gives is that of the caller's organization, and the subscription is one of
    -- that organization, or there is none.
    pub get_plan_owned :
        (user : SessionUser) {a : PlanAnswer}
        → get_plan engine (member user org) store ≡ ok a
        → IsPlanOf store org a
    unfolding get_plan
    get_plan_owned user e =
        first_of _
          (own_rows _ _ (engine.selected (λ s. s.org_id == org) store.subscriptions)
            (engine.selected (λ o. o.id == org) store.organizations))
          e
