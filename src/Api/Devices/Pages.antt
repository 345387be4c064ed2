-- ===== src/Api/Devices/Pages.antt =====
-- A page of `list` in apps/api/src/trpc/routers/devices.ts, from the rows of its query.
use mikrotikbandwidthmonitor.Prelude.{
  ℕ, zero, suc, ◌+◌, ◌≤◌, ◌<◌, ◌≡◌, refl, ap, none, some, List, [], ◌∷◌, length, take, drop, Member,
  IsAscending, All-Member, inl, inr, arith,
}
use mikrotikbandwidthmonitor.Api.Schema.{Device}
use mikrotikbandwidthmonitor.Api.Devices.{last_of, page_of}
use mikrotikbandwidthmonitor.Api.Devices.Tenancy.{id_of}

-- A list in the order of a key, split at an index that it reaches.
abbrev pub SplitsAt : List Device → List Device → Device → Type 0
SplitsAt front back d =
    (last_of id_of front ≡ some d.id)
    × Member front d
    × ((e : Device) → Member front e → e.id ≤ d.id)
    × ((e : Device) → Member back e → d.id < e.id)

only : (x e : Device) → Member (x ∷ []) e → e.id ≤ x.id
only x e (inl same) = omega (arith, ap id_of same)
only x e (inr m) = elim m [ ]

pub split :
    (n : ℕ) (xs : List Device)
    → n < length xs
    → IsAscending id_of xs
    → 1 ≤ n
    → (d : Device) × SplitsAt (take n xs) (drop n xs) d
split zero xs l a h = absurd (omega arith)
split (suc n) [] l a h = absurd (omega arith)
split (suc zero) (x ∷ xs) l (ax, a) h =
    (x, (refl, inl refl, only x, λ e m. All-Member (λ y. x.id < y.id) xs ax m))
split (suc (suc n)) (x ∷ []) l a h = absurd (omega arith)
split (suc (suc n)) (x ∷ y ∷ xs) l ((xy, ax), a) h =
    let (d, (last, there, below, above)) = split (suc n) (y ∷ xs) (omega arith) a (omega arith) in
    let below' : (e : Device) → Member (x ∷ y ∷ take n xs) e → e.id ≤ d.id = λ e m. elim m [
      | inl same ↦ omega (arith, ap id_of same, xy, below y (inl refl))
      | inr later ↦ below e later
    ] in
    (d, (last, inr there, below', above))

after_take : (n : ℕ) (xs : List Device) → length xs ≤ n → take n xs ≡ xs
after_take zero [] l = refl
after_take zero (x ∷ xs) l = absurd (omega arith)
after_take (suc n) [] l = refl
after_take (suc n) (x ∷ xs) l = ap (λ t. x ∷ t) (after_take n xs (omega arith))

take_more : (n : ℕ) (xs : List Device) → take n (take (suc n) xs) ≡ take n xs
take_more zero xs = refl
take_more (suc n) [] = refl
take_more (suc n) (x ∷ xs) = ap (λ t. x ∷ t) (take_more n xs)

length_more : (n : ℕ) (xs : List Device) → n < length xs → length (take (suc n) xs) ≡ suc n
length_more n [] l = absurd (omega arith)
length_more zero (x ∷ xs) l = refl
length_more (suc n) (x ∷ xs) l = ap suc (length_more n xs (omega arith))

plus_one : (n : ℕ) → n + 1 ≡ suc n
plus_one n = omega arith

-- The page of a query that gives more rows than the limit, and of one that does not.
pub page_full :
    (n : ℕ) (xs : List Device)
    → n < length xs
    → page_of id_of n (take (n + 1) xs)
      ≡ record { items = take n xs; next_cursor = last_of id_of (take n xs) }
page_full n xs l = rw (plus_one n, take_more n xs, length_more n xs l) (ground arith)

pub page_short :
    (n : ℕ) (xs : List Device)
    → length xs ≤ n
    → page_of id_of n (take (n + 1) xs) ≡ record { items = xs; next_cursor = none }
page_short n xs l = rw (after_take (n + 1) xs (omega arith)) (ground arith)
