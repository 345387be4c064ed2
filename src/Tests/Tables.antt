-- ===== src/Tests/Tables.antt =====
-- A database that keeps a table as a list of rows: it never refuses a statement.
use native.Mathlib.Omega.{arith}
use mikrotikbandwidthmonitor.Prelude.{
  Member, IsDistinct, IsAscending, ◌<◌, ◌≢◌, ℕ, ◌≡◌, refl, Bool, true, false, ◌⊎◌, inl, inr, some,
  List, [], ◌∷◌, leb, not, All, Bool-cases, some_inj, subst, sym, ap, ◌∙◌,
}
use mikrotikbandwidthmonitor.Prelude.Bytes.{text_eq}
use mikrotikbandwidthmonitor.Api.Database.{Engine}

unfoldable pub keep_if : {A : Type 0} → (A → Bool) → List A → List A
keep_if p [] = []
keep_if p (x ∷ xs) = elim (p x) [ true ↦ x ∷ keep_if p xs | false ↦ keep_if p xs ]

unfoldable pub set_if : {A : Type 0} → (A → Bool) → (A → A) → List A → List A
set_if p f [] = []
set_if p f (x ∷ xs) = elim (p x) [ true ↦ f x ∷ set_if p f xs | false ↦ x ∷ set_if p f xs ]

unfoldable pub put : {A : Type 0} → (A → ℕ) → A → List A → List A
put key x [] = x ∷ []
put key x (y ∷ ys) = elim (leb (key x) (key y)) [ true ↦ x ∷ y ∷ ys | false ↦ y ∷ put key x ys ]

unfoldable pub sort : {A : Type 0} → (A → ℕ) → List A → List A
sort key [] = []
sort key (x ∷ xs) = put key x (sort key xs)

widen : {A : Type 0} (P Q : A → Type 0) (xs : List A) → ((x : A) → P x → Q x) → All P xs → All Q xs
widen P Q [] f h = tt
widen P Q (x ∷ xs) f (h, hs) = (f x h, widen P Q xs f hs)

pub keep_if-All :
    {A : Type 0} (p : A → Bool) (xs : List A) → All (λ x. Member xs x × (p x ≡ true)) (keep_if p xs)
unfolding keep_if
keep_if-All p [] = tt
keep_if-All p (y ∷ ys) =
    let hs =
      widen (λ x. Member ys x × (p x ≡ true)) (λ x. Member (y ∷ ys) x × (p x ≡ true)) (keep_if p ys)
        (λ x h. (inr h.0, h.1)) (keep_if-All p ys) in
    elim (Bool-cases (p y)) [
      | inl hit ↦ rw (hit, keep_if) ((inl refl, hit), hs)
      | inr missed ↦ rw (missed, keep_if) hs
    ]

pub kept_by_set :
    {A : Type 0} (p : A → Bool) (f : A → A) (xs : List A) {x : A}
    → Member xs x
    → p x ≡ false
    → Member (set_if p f xs) x
unfolding set_if
kept_by_set p f [] h e = elim h [ ]
kept_by_set p f (y ∷ ys) (inl same) e = rw (ap p (sym same) ∙ e, set_if) (inl same)
kept_by_set p f (y ∷ ys) (inr h) e = elim (Bool-cases (p y)) [
  | inl hit ↦ rw (hit, set_if) (inr (kept_by_set p f ys h e))
  | inr missed ↦ rw (missed, set_if) (inr (kept_by_set p f ys h e))
]

pub from_set :
    {A : Type 0} (p : A → Bool) (f : A → A) (xs : List A) {x : A}
    → Member (set_if p f xs) x
    → (Member xs x × (p x ≡ false)) ⊎ ((y : A) × Member xs y × (p y ≡ true) × (x ≡ f y))
unfolding set_if
from_set p f [] h = elim h [ ]
from_set {A} p f (y ∷ ys) {x} h = elim (Bool-cases (p y)) [
  | inl hit ↦ elim (rw (hit, set_if) at h) [
    | inl same ↦ inr (y, inl refl, hit, same)
    | inr later ↦ behind (from_set p f ys later)
  ]
  | inr missed ↦ elim (rw (missed, set_if) at h) [
    | inl same ↦ inl (inl same, ap p same ∙ missed)
    | inr later ↦ behind (from_set p f ys later)
  ]
]
  where
    behind :
        (Member ys x × (p x ≡ false)) ⊎ ((z : A) × Member ys z × (p z ≡ true) × (x ≡ f z))
        → (Member (y ∷ ys) x × (p x ≡ false))
          ⊎ ((z : A) × Member (y ∷ ys) z × (p z ≡ true) × (x ≡ f z))
    behind (inl (m, e)) = inl (inr m, e)
    behind (inr (z, m, e, c)) = inr (z, inr m, e, c)

pub kept_by_keep :
    {A : Type 0} (p : A → Bool) (xs : List A) {x : A}
    → Member xs x
    → p x ≡ true
    → Member (keep_if p xs) x
unfolding keep_if
kept_by_keep p [] h e = elim h [ ]
kept_by_keep p (y ∷ ys) (inl same) e = rw (ap p (sym same) ∙ e, keep_if) (inl same)
kept_by_keep p (y ∷ ys) (inr h) e = elim (Bool-cases (p y)) [
  | inl hit ↦ rw (hit, keep_if) (inr (kept_by_keep p ys h e))
  | inr missed ↦ rw (missed, keep_if) (kept_by_keep p ys h e)
]

from_keep :
    {A : Type 0} (p : A → Bool) (xs : List A) {x : A}
    → Member (keep_if p xs) x
    → Member xs x × (p x ≡ true)
unfolding keep_if
from_keep p [] h = elim h [ ]
from_keep p (y ∷ ys) {x} h = elim (Bool-cases (p y)) [
  | inl hit ↦ elim (rw (hit, keep_if) at h) [
    | inl same ↦ (inl same, ap p same ∙ hit)
    | inr later ↦ let m = from_keep p ys later in (inr m.0, m.1)
  ]
  | inr missed ↦ let m = from_keep p ys (rw (missed, keep_if) at h) in (inr m.0, m.1)
]

All-put :
    {A : Type 0} (key : A → ℕ) (P : A → Type 0) (x : A) (xs : List A)
    → P x
    → All P xs
    → All P (put key x xs)
unfolding put
All-put key P x [] h hs = (h, tt)
All-put key P x (y ∷ ys) h (hy, hs) = elim (Bool-cases (leb (key x) (key y))) [
  | inl before ↦ rw (before, put) (h, (hy, hs))
  | inr after ↦ rw (after, put) (hy, All-put key P x ys h hs)
]

pub All-sort :
    {A : Type 0} (key : A → ℕ) (P : A → Type 0) (xs : List A) → All P xs → All P (sort key xs)
unfolding sort
All-sort key P [] h = tt
All-sort key P (x ∷ xs) (h, hs) = All-put key P x (sort key xs) h (All-sort key P xs hs)

pub negated : (b : Bool) → b ≡ false → not b ≡ true
negated b e = ap not e

negated_back : (b : Bool) → not b ≡ true → b ≡ false
negated_back true e = cc
negated_back false e = refl

pub from_drop :
    {A : Type 0} (p : A → Bool) (xs : List A) {x : A}
    → Member (keep_if (λ y. not (p y)) xs) x
    → Member xs x × (p x ≡ false)
from_drop p xs {x} h = let m = from_keep (λ y. not (p y)) xs h in (m.0, negated_back (p x) m.1)

pub put-Member :
    {A : Type 0} (key : A → ℕ) (x : A) (xs : List A) (z : A)
    → Member (x ∷ xs) z
    → Member (put key x xs) z
unfolding put
put-Member key x [] z m = m
put-Member key x (y ∷ ys) z m = elim (Bool-cases (leb (key x) (key y))) [
  | inl before ↦ rw (before, put) m
  | inr after ↦
      rw (after, put)
        (elim m [
          | inl e ↦ inr (put-Member key x ys z (inl e))
          | inr (inl e) ↦ inl e
          | inr (inr later) ↦ inr (put-Member key x ys z (inr later))
        ])
]

pub sort-Member :
    {A : Type 0} (key : A → ℕ) (xs : List A) (z : A) → Member xs z → Member (sort key xs) z
unfolding sort
sort-Member key [] z m = elim m [ ]
sort-Member key (x ∷ xs) z (inl e) = put-Member key x (sort key xs) z (inl e)
sort-Member key (x ∷ xs) z (inr m) = put-Member key x (sort key xs) z (inr (sort-Member key xs z m))

put-IsAscending :
    {A : Type 0} (key : A → ℕ) (x : A) (xs : List A)
    → All (λ y. key x ≢ key y) xs
    → IsAscending key xs
    → IsAscending key (put key x xs)
unfolding put
put-IsAscending key x [] h a = (tt, tt)
put-IsAscending key x (y ∷ ys) (hy, h) (ay, a) = elim (Bool-cases (leb (key x) (key y))) [
  | inl before ↦
      let less : key x < key y = ground (arith, hy) in
      rw (before, put)
        (
          (less, widen (λ z. key y < key z) (λ z. key x < key z) ys (λ z l. omega arith) ay),
          (ay, a),
        )
  | inr after ↦
      rw (after, put)
        (All-put key (λ z. key y < key z) x ys (ground arith) ay, put-IsAscending key x ys h a)
]

pub sort-IsAscending :
    {A : Type 0} (key : A → ℕ) (xs : List A) → IsDistinct key xs → IsAscending key (sort key xs)
unfolding sort
sort-IsAscending key [] d = tt
sort-IsAscending key (x ∷ xs) (dx, d) =
    put-IsAscending key x (sort key xs) (All-sort key (λ y. key x ≢ key y) xs dx)
      (sort-IsAscending key xs d)

All-keep_if :
    {A : Type 0} (P : A → Type 0) (p : A → Bool) (xs : List A) → All P xs → All P (keep_if p xs)
unfolding keep_if
All-keep_if P p [] h = tt
All-keep_if P p (x ∷ xs) (h, hs) = elim (Bool-cases (p x)) [
  | inl hit ↦ rw (hit, keep_if) (h, All-keep_if P p xs hs)
  | inr missed ↦ rw (missed, keep_if) (All-keep_if P p xs hs)
]

pub keep_if-IsDistinct :
    {A : Type 0} (key : A → ℕ) (p : A → Bool) (xs : List A)
    → IsDistinct key xs
    → IsDistinct key (keep_if p xs)
unfolding keep_if
keep_if-IsDistinct key p [] d = tt
keep_if-IsDistinct key p (x ∷ xs) (dx, d) = elim (Bool-cases (p x)) [
  | inl hit ↦
      rw (hit, keep_if) (All-keep_if (λ y. key x ≢ key y) p xs dx, keep_if-IsDistinct key p xs d)
  | inr missed ↦ rw (missed, keep_if) (keep_if-IsDistinct key p xs d)
]

abbrev pub list_engine : Engine
list_engine = record {
  Table = λ A. List A;
  Has = λ t x. Member t x;
  select = λ p t. keep_if p t;
  order_asc = λ key xs. sort key xs;
  order_desc = λ key xs. sort key xs;
  order_text = λ key xs. xs;
  insert = λ a t. some (a ∷ t);
  update = λ p f t. some (set_if p f t);
  delete = λ p t. keep_if (λ x. not (p x)) t;
  ilike = text_eq;
  contains = λ xs ys. true;
  selected = λ p t. keep_if-All p t;
  complete = λ p t x h e. kept_by_keep p t h e;
  inserted = λ a t {t'} e. subst (λ l. Member l a) (some_inj e) (inl refl);
  kept_by_insert = λ a t {t'} e {x} h. subst (λ l. Member l x) (some_inj e) (inr h);
  from_insert = λ a t {t'} e {x} h. elim (subst (λ l. Member l x) (sym (some_inj e)) h) [
    | inl same ↦ inr same
    | inr before ↦ inl before
  ];
  kept_by_update =
      λ p f t {t'} e {x} h q. subst (λ l. Member l x) (some_inj e) (kept_by_set p f t h q);
  from_update = λ p f t {t'} e {x} h. from_set p f t (subst (λ l. Member l x) (sym (some_inj e)) h);
  kept_by_delete = λ p t {x} h q. kept_by_keep (λ y. not (p y)) t h (negated (p x) q);
  from_delete = λ p t {x} h. from_drop p t h;
  ordered_asc = λ key P xs h. All-sort key P xs h;
  ordered_desc = λ key P xs h. All-sort key P xs h;
  ordered_text = λ key P xs h. h;
  listed_text = λ key xs x m. m;
  listed_asc = λ key xs x m. sort-Member key xs x m;
  ascending = λ key xs d. sort-IsAscending key xs d;
}
