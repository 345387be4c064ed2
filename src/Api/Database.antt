-- ===== src/Api/Database.antt =====
-- The database as apps/api/src/trpc/routers uses it through Drizzle. PostgreSQL is the parameter
-- `Engine`: its tables, its statements and what the routers rely on. `none` is a statement that a
-- constraint refuses.
use mikrotikbandwidthmonitor.Prelude.{
  ℕ, ◌≡◌, Bool, true, false, Option, none, some, List, [], ◌∷◌, All, Member, IsDistinct,
  IsAscending,
}
use mikrotikbandwidthmonitor.Prelude.Bytes.{Text}
use mathlib.Core.Logic.{◌⊎◌}

pub record Engine : Type 1 where
  pub Table : Type 0 → Type 0
  -- A row stands in a table.
  pub Has : {A : Type 0} → Table A → A → Type 0
  -- `select().from(t).where(p)`, in any order
  pub select : {A : Type 0} → (A → Bool) → Table A → List A
  -- `orderBy(asc(key))`, `orderBy(desc(key))`
  pub order_asc : {A : Type 0} → (A → ℕ) → List A → List A
  pub order_desc : {A : Type 0} → (A → ℕ) → List A → List A
  -- `orderBy(asc(text))`, by the collation of the database
  pub order_text : {A : Type 0} → (A → Text) → List A → List A
  pub insert : {A : Type 0} → A → Table A → Option (Table A)
  pub update : {A : Type 0} → (A → Bool) → (A → A) → Table A → Option (Table A)
  pub delete : {A : Type 0} → (A → Bool) → Table A → Table A
  -- `ilike(text, pattern)` and `xs @> ys`
  pub ilike : Text → Text → Bool
  pub contains : List Text → List Text → Bool
  pub selected :
      {A : Type 0} (p : A → Bool) (t : Table A) → All (λ x. Has t x × (p x ≡ true)) (select p t)
  pub complete :
      {A : Type 0} (p : A → Bool) (t : Table A) (x : A)
      → Has t x
      → p x ≡ true
      → Member (select p t) x
  pub inserted : {A : Type 0} (a : A) (t : Table A) {t' : Table A} → insert a t ≡ some t' → Has t' a
  pub kept_by_insert :
      {A : Type 0} (a : A) (t : Table A) {t' : Table A}
      → insert a t ≡ some t'
      → {x : A} → Has t x
      → Has t' x
  pub from_insert :
      {A : Type 0} (a : A) (t : Table A) {t' : Table A}
      → insert a t ≡ some t'
      → {x : A} → Has t' x
      → Has t x ⊎ (x ≡ a)
  pub kept_by_update :
      {A : Type 0} (p : A → Bool) (f : A → A) (t : Table A) {t' : Table A}
      → update p f t ≡ some t'
      → {x : A} → Has t x
      → p x ≡ false
      → Has t' x
  pub from_update :
      {A : Type 0} (p : A → Bool) (f : A → A) (t : Table A) {t' : Table A}
      → update p f t ≡ some t'
      → {x : A} → Has t' x
      → (Has t x × (p x ≡ false)) ⊎ ((y : A) × Has t y × (p y ≡ true) × (x ≡ f y))
  pub kept_by_delete :
      {A : Type 0} (p : A → Bool) (t : Table A) {x : A} → Has t x → p x ≡ false → Has (delete p t) x
  pub from_delete :
      {A : Type 0} (p : A → Bool) (t : Table A) {x : A}
      → Has (delete p t) x
      → Has t x × (p x ≡ false)
  pub ordered_asc :
      {A : Type 0} (key : A → ℕ) (P : A → Type 0) (xs : List A)
      → All P xs
      → All P (order_asc key xs)
  pub ordered_desc :
      {A : Type 0} (key : A → ℕ) (P : A → Type 0) (xs : List A)
      → All P xs
      → All P (order_desc key xs)
  pub ordered_text :
      {A : Type 0} (key : A → Text) (P : A → Type 0) (xs : List A)
      → All P xs
      → All P (order_text key xs)
  pub listed_text :
      {A : Type 0} (key : A → Text) (xs : List A) (x : A)
      → Member xs x
      → Member (order_text key xs) x
  pub listed_asc :
      {A : Type 0} (key : A → ℕ) (xs : List A) (x : A) → Member xs x → Member (order_asc key xs) x
  pub ascending :
      {A : Type 0} (key : A → ℕ) (xs : List A)
      → IsDistinct key xs
      → IsAscending key (order_asc key xs)

-- `const [row] = …`
unfoldable pub first {ℓ} : {A : Type ℓ} → List A → Option A
first [] = none
first (x ∷ xs) = some x
