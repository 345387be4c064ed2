-- ===== src/Prelude/Order.antt =====
-- Lists in the order of a key: membership, distinct keys and ascending keys, by recursion.
use Prim.Native.Nat.{ℕ, zero, suc, ◌<◌}
use mathlib.Core.Path.{◌≡◌, refl, sym, ap, ◌∙◌, subst}
use mathlib.Core.Logic.{◌≢◌, ◌⊎◌, inl, inr}
use mathlib.Core.List.{List, [], ◌∷◌, ◌++◌}
use native.Mathlib.Omega.{arith}
use mikrotikbandwidthmonitor.Prelude.Lists.{drop, All}

abbrev pub Member : {A : Type 0} → List A → A → Type 0
Member [] x = ⊥
Member (y ∷ ys) x = (x ≡ y) ⊎ Member ys x

abbrev pub IsDistinct : {A : Type 0} → (A → ℕ) → List A → Type 0
IsDistinct key [] = Unit
IsDistinct key (x ∷ xs) = All (λ y. key x ≢ key y) xs × IsDistinct key xs

abbrev pub IsAscending : {A : Type 0} → (A → ℕ) → List A → Type 0
IsAscending key [] = Unit
IsAscending key (x ∷ xs) = All (λ y. key x < key y) xs × IsAscending key xs

module _ {A : Type 0} where
  pub All-Member : (P : A → Type 0) (xs : List A) {z : A} → All P xs → Member xs z → P z
  All-Member P [] h m = elim m [ ]
  All-Member P (x ∷ xs) (h, hs) (inl e) = subst P (sym e) h
  All-Member P (x ∷ xs) (h, hs) (inr m) = All-Member P xs hs m

  pub Member-All : (P : A → Type 0) (xs : List A) → ((z : A) → Member xs z → P z) → All P xs
  Member-All P [] f = tt
  Member-All P (x ∷ xs) f = (f x (inl refl), Member-All P xs (λ z m. f z (inr m)))

  pub Member-append : (xs ys : List A) (d : A) → Member (xs ++ ys) d → Member xs d ⊎ Member ys d
  Member-append [] ys d m = inr m
  Member-append (x ∷ xs) ys d (inl e) = inl (inl e)
  Member-append (x ∷ xs) ys d (inr m) = elim (Member-append xs ys d m) [
    | inl front ↦ inl (inr front)
    | inr back ↦ inr back
  ]

  pub front-Member : (xs ys : List A) (d : A) → Member xs d → Member (xs ++ ys) d
  front-Member [] ys d m = elim m [ ]
  front-Member (x ∷ xs) ys d (inl e) = inl e
  front-Member (x ∷ xs) ys d (inr m) = inr (front-Member xs ys d m)

  pub append-Member : (xs ys : List A) (d : A) → Member ys d → Member (xs ++ ys) d
  append-Member [] ys d m = m
  append-Member (x ∷ xs) ys d m = inr (append-Member xs ys d m)

  pub drop-IsAscending :
      (key : A → ℕ) (n : ℕ) (xs : List A) → IsAscending key xs → IsAscending key (drop n xs)
  drop-IsAscending key zero xs a = a
  drop-IsAscending key (suc n) [] a = tt
  drop-IsAscending key (suc n) (x ∷ xs) (ax, a) = drop-IsAscending key n xs a

  module _ (key : A → ℕ) where
    behind_first :
        (x : A) (xs ys : List A)
        → All (λ y. key x < key y) xs
        → ((z : A) → Member (x ∷ xs) z → Member (x ∷ ys) z)
        → (z : A) → Member xs z
        → Member ys z
    behind_first x xs ys above f z m = elim (f z (inr m)) [
      | inl e ↦ absurd (omega (arith, All-Member (λ y. key x < key y) xs above m, ap key e))
      | inr later ↦ later
    ]

    same_first :
        (x y : A) (xs ys : List A)
        → All (λ z. key x < key z) xs
        → All (λ z. key y < key z) ys
        → Member (y ∷ ys) x
        → Member (x ∷ xs) y
        → x ≡ y
    same_first x y xs ys hx hy (inl e) n = e
    same_first x y xs ys hx hy (inr m) (inl e) = sym e
    same_first x y xs ys hx hy (inr m) (inr n) = absurd (
        omega
          (arith, All-Member (λ z. key y < key z) ys hy m, All-Member (λ z. key x < key z) xs hx n))

    -- Two ascending lists with the same members are equal.
    pub IsAscending-ext :
        (xs ys : List A)
        → IsAscending key xs
        → IsAscending key ys
        → ((z : A) → Member xs z → Member ys z)
        → ((z : A) → Member ys z → Member xs z)
        → xs ≡ ys
    IsAscending-ext [] [] hx hy f g = refl
    IsAscending-ext [] (y ∷ ys) hx hy f g = elim (g y (inl refl)) [ ]
    IsAscending-ext (x ∷ xs) [] hx hy f g = elim (f x (inl refl)) [ ]
    IsAscending-ext (x ∷ xs) (y ∷ ys) (ax, hx) (ay, hy) f g =
        let e = same_first x y xs ys ax ay (f x (inl refl)) (g y (inl refl)) in
        let f' : (z : A) → Member (x ∷ xs) z → Member (x ∷ ys) z =
          subst (λ w. (z : A) → Member (x ∷ xs) z → Member (w ∷ ys) z) (sym e) f in
        let g' : (z : A) → Member (x ∷ ys) z → Member (x ∷ xs) z =
          subst (λ w. (z : A) → Member (w ∷ ys) z → Member (x ∷ xs) z) (sym e) g in
        let ay' : All (λ z. key x < key z) ys =
          subst (λ w. All (λ z. key w < key z) ys) (sym e) ay in
        ap (λ w. w ∷ xs) e
        ∙ ap (λ l. y ∷ l)
            (IsAscending-ext xs ys hx hy (behind_first x xs ys ax f') (behind_first x ys xs ay' g'))
