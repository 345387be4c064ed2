-- ===== src/Api/Tenancy.antt =====
-- What a statement of the routers (apps/api/src/trpc/routers) leaves alone: the rows of the other
-- organizations, in any table whose rows belong to one.
use mikrotikbandwidthmonitor.Prelude.{
  ◌≡◌, ◌≢◌, ap, ◌∙◌, Bool, true, some, List, [], ◌∷◌, inl, inr, Bool-cases, All, some_inj, subst,
}
use mikrotikbandwidthmonitor.Api.Database.{Engine, first}
use mikrotikbandwidthmonitor.Api.Schema.{Uuid}

module _ (engine : Engine) {A : Type 0} where
  first-All : (P : A → Type 0) (xs : List A) {x : A} → All P xs → first xs ≡ some x → P x
  unfolding first
  first-All P [] h e = cc
  first-All P (y ∷ xs) (h, hs) e = subst P (some_inj e) h

  -- The row that a query gives first stands in the table and meets the condition.
  pub first-select :
      (p : A → Bool) (t : engine.Table A) {x : A}
      → first (engine.select p t) ≡ some x
      → engine.Has t x × (p x ≡ true)
  first-select p t e =
      first-All (λ x. engine.Has t x × (p x ≡ true)) (engine.select p t) (engine.selected p t) e

  -- The primary key.
  abbrev pub HasUniqueIds : (A → Uuid) → engine.Table A → Type 0
  HasUniqueIds id_of t = (x y : A) → engine.Has t x → engine.Has t y → id_of x ≡ id_of y → x ≡ y

  -- The rows of other organizations are the same in both tables.
  pub record KeepsOthers (org_of : A → Uuid) (org : Uuid) (t t' : engine.Table A) : Type 0 where
    pub kept : {x : A} → engine.Has t x → org_of x ≢ org → engine.Has t' x
    pub known : {x : A} → engine.Has t' x → org_of x ≢ org → engine.Has t x

  module _ (org_of : A → Uuid) (org : Uuid) (t : engine.Table A) where
    pub insert-KeepsOthers :
        (new : A) {t' : engine.Table A}
        → org_of new ≡ org
        → engine.insert new t ≡ some t'
        → KeepsOthers org_of org t t'
    insert-KeepsOthers new mine e = record {
      kept = λ {x} h other. engine.kept_by_insert new t e h;
      known = λ {x} h other. elim (engine.from_insert new t e h) [
        | inl before ↦ before
        | inr same ↦ absurd (other (ap org_of same ∙ mine))
      ];
    }

    pub delete-KeepsOthers :
        (p : A → Bool)
        → ((x : A) → p x ≡ true → org_of x ≡ org)
        → KeepsOthers org_of org t (engine.delete p t)
    delete-KeepsOthers p mine = record {
      kept = λ {x} h other.
          engine.kept_by_delete p t h (elim (Bool-cases (p x)) [
            | inl hit ↦ absurd (other (mine x hit))
            | inr missed ↦ missed
          ]);
      known = λ {x} h other. (engine.from_delete p t h).0;
    }

    pub update-KeepsOthers :
        (p : A → Bool) (f : A → A) {t' : engine.Table A}
        → ((x : A) → engine.Has t x → p x ≡ true → org_of x ≡ org)
        → ((x : A) → org_of (f x) ≡ org_of x)
        → engine.update p f t ≡ some t'
        → KeepsOthers org_of org t t'
    update-KeepsOthers p f mine stays e = record {
      kept = λ {x} h other. engine.kept_by_update p f t e h (elim (Bool-cases (p x)) [
        | inl hit ↦ absurd (other (mine x h hit))
        | inr missed ↦ missed
      ]);
      known = λ {x} h other. elim (engine.from_update p f t e h) [
        | inl (before, missed) ↦ before
        | inr (old, before, hit, changed) ↦
            absurd (other (ap org_of changed ∙ stays old ∙ mine old before hit))
      ];
    }
