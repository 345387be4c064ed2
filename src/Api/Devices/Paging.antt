-- ===== src/Api/Devices/Paging.antt =====
-- The pages of `list` in apps/api/src/trpc/routers/devices.ts, read one after the other.
use mikrotikbandwidthmonitor.Prelude.{
  ℕ, zero, suc, ◌≤◌, ◌<◌, ◌≡◌, ◌↔◌, sym, ap, ◌∙◌, subst, Bool, true, Option, none, some, List, ◌++◌,
  ltb, length, take, drop, Member, IsDistinct, IsAscending, All-Member, Member-append, front-Member,
  append-Member, drop-IsAscending, IsAscending-ext, take-append-drop, length-drop, Bool-cases, inl,
  inr, ok, err, arith,
}
use mikrotikbandwidthmonitor.Api.Database.{Engine}
use mikrotikbandwidthmonitor.Api.Schema.{Uuid, Device, Store}
use mikrotikbandwidthmonitor.Api.Context.{SessionUser, Context}
use mikrotikbandwidthmonitor.Api.Devices.{ListInput, Page, list, matches, last_of}
use mikrotikbandwidthmonitor.Api.Devices.Pages.{SplitsAt, split, page_full, page_short}
use mikrotikbandwidthmonitor.Api.Devices.Tenancy.{id_of, member}

abbrev pub at : ListInput → Option Uuid → ListInput
at input cursor = record input { cursor = cursor }

abbrev and_then : {A : Type 0} → List A → Option (List A) → Option (List A)
and_then xs none = none
and_then xs (some ys) = some (xs ++ ys)

-- The items of a page and of those that its cursor leads to.
abbrev joined : (Uuid → Option (List Device)) → Page Device → Option (List Device)
joined later page = elim (page.next_cursor) [
  | none ↦ some page.items
  | some cursor ↦ and_then page.items (later cursor)
]

module _ (engine : Engine) where
  -- All pages from a cursor on, at most `fuel` many.
  unfoldable pub walk : ℕ → Context → Store engine → ListInput → Option Uuid → Option (List Device)
  walk zero ctx store input cursor = none
  walk (suc fuel) ctx store input cursor = elim (list engine ctx store (at input cursor)) [
    | err e ↦ none
    | ok page ↦ joined (λ next. walk fuel ctx store input (some next)) page
  ]

  -- No id stands twice in what a query of the table gives.
  abbrev pub GivesIdsOnce : engine.Table Device → Type 0
  GivesIdsOnce t = (p : Device → Bool) → IsDistinct id_of (engine.select p t)

module _ (engine : Engine) (org : Uuid) (input : ListInput) where
  -- A cursor only narrows a query.
  matches-at :
      (c : Uuid) (d : Device)
      → (matches engine org (at input (some c)) d ≡ true)
        ↔ ((matches engine org (at input none) d ≡ true) × (c < d.id))
  unfolding matches
  matches-at c d = ground arith

  matches_wider :
      (c : Option Uuid) (d : Device)
      → matches engine org (at input c) d ≡ true
      → matches engine org (at input none) d ≡ true
  matches_wider none d e = e
  matches_wider (some c) d e = ((matches-at c d).0 e).0

  matches_later :
      (c : Option Uuid) (d e : Device)
      → matches engine org (at input c) d ≡ true
      → matches engine org (at input none) e ≡ true
      → d.id < e.id
      → matches engine org (at input c) e ≡ true
  matches_later none d e hd he l = he
  matches_later (some c) d e hd he l =
      (matches-at c e).1 (he, omega (arith, ((matches-at c d).0 hd).1))

  module _ (t : engine.Table Device) where
    abbrev rows : Option Uuid → List Device
    rows cursor = engine.order_asc id_of (engine.select (matches engine org (at input cursor)) t)

    rows_iff :
        (c : Option Uuid) (d : Device)
        → Member (rows c) d ↔ (engine.Has t d × (matches engine org (at input c) d ≡ true))
    rows_iff c d =
        let test = matches engine org (at input c) in
        (
          λ m.
              All-Member (λ x. engine.Has t x × (test x ≡ true)) (rows c)
                (engine.ordered_asc id_of (λ x. engine.Has t x × (test x ≡ true))
                  (engine.select test t) (engine.selected test t))
                m,
          λ (h, e). engine.listed_asc id_of (engine.select test t) d (engine.complete test t d h e),
        )

    -- The rows behind the last one of a page are the rest of the rows.
    next_rows :
        (n : ℕ) (c : Option Uuid) (d : Device)
        → GivesIdsOnce engine t
        → SplitsAt (take n (rows c)) (drop n (rows c)) d
        → rows (some d.id) ≡ drop n (rows c)
    next_rows n c d once (last, there, below, above) =
        let whole = take-append-drop n (rows c) in
        let in_rows : (e : Device)
            → Member (take n (rows c) ++ drop n (rows c)) e
            → Member (rows c) e =
          λ e m. subst (λ l. Member l e) whole m in
        let hit =
          ((rows_iff c d).0
            (in_rows d (front-Member (take n (rows c)) (drop n (rows c)) d there))).1 in
        IsAscending-ext id_of (rows (some d.id)) (drop n (rows c))
          (engine.ascending id_of (engine.select (matches engine org (at input (some d.id))) t)
            (once (matches engine org (at input (some d.id)))))
          (drop-IsAscending id_of n (rows c) (
            engine.ascending id_of (engine.select (matches engine org (at input c)) t)
              (once (matches engine org (at input c)))))
          (λ e m.
            let (h, at_d) = (rows_iff (some d.id) e).0 m in
            let (wide, later) = (matches-at d.id e).0 at_d in
            let there' = (rows_iff c e).1 (h, matches_later c d e hit wide later) in
            elim (Member-append (take n (rows c)) (drop n (rows c)) e
              (subst (λ l. Member l e) (sym whole) there')) [
                | inl front ↦ absurd (omega (arith, below e front))
                | inr back ↦ back
              ])
          (λ e m.
            let (h, at_c) =
              (rows_iff c e).0
                (in_rows e (append-Member (take n (rows c)) (drop n (rows c)) e m)) in
            (rows_iff (some d.id) e).1
              (h, (matches-at d.id e).1 (matches_wider c e at_c, above e m)))

  module _ (user : SessionUser) (store : Store engine) where
    walk_full :
        (fuel : ℕ) (c : Option Uuid) (next : Uuid) {later : List Device}
        → input.limit < length (rows store.devices c)
        → last_of id_of (take input.limit (rows store.devices c)) ≡ some next
        → walk engine fuel (member user org) store input (some next) ≡ some later
        → walk engine (suc fuel) (member user org) store input c
          ≡ some (take input.limit (rows store.devices c) ++ later)
    unfolding walk list
    walk_full fuel c next l last rest =
        rw (page_full input.limit (rows store.devices c) l, last, rest)

    walk_short :
        (fuel : ℕ) (c : Option Uuid)
        → length (rows store.devices c) ≤ input.limit
        → walk engine (suc fuel) (member user org) store input c ≡ some (rows store.devices c)
    unfolding walk list
    walk_short fuel c l = rw (page_short input.limit (rows store.devices c) l)

    walked :
        (fuel : ℕ) (c : Option Uuid)
        → GivesIdsOnce engine store.devices
        → 1 ≤ input.limit
        → length (rows store.devices c) < fuel
        → walk engine fuel (member user org) store input c ≡ some (rows store.devices c)
    walked zero c once some_limit l = absurd (omega arith)
    walked (suc fuel) c once some_limit l =
        let n = input.limit in
        let xs = rows store.devices c in
        elim (Bool-cases (ltb n (length xs))) [
          | inr short ↦ walk_short fuel c (ground arith)
          | inl more ↦
              let long : n < length xs = ground arith in
              let (d, parts) =
                split n xs long
                  (engine.ascending id_of
                    (engine.select (matches engine org (at input c)) store.devices)
                    (once (matches engine org (at input c))))
                  some_limit in
              let next = next_rows store.devices n c d once parts in
              let rest =
                walked fuel (some d.id) once some_limit
                  (omega (arith, ap length next, length-drop n xs)) in
              walk_full fuel c d.id long parts.0 rest
              ∙ ap (λ l. some (take n xs ++ l)) next
              ∙ ap some (take-append-drop n xs)
        ]

    -- Reading page after page by the cursors ends, and gives exactly the devices that the filters of
    -- the query select within the organization, each once and in the order of their ids, whatever the
    -- page size, so long as it is not 0. A query gives no id twice.
    pub walk-list :
        GivesIdsOnce engine store.devices
        → 1 ≤ input.limit
        → (all : List Device) × (walk engine (suc (length all)) (member user org) store input none
            ≡ some all)
          × IsAscending id_of all
          × ((d : Device)
              → Member all d
                ↔ (engine.Has store.devices d × (matches engine org (at input none) d ≡ true)))
    walk-list once some_limit = (
      rows store.devices none,
      walked (suc (length (rows store.devices none))) none once some_limit (omega arith),
      engine.ascending id_of (engine.select (matches engine org (at input none)) store.devices)
          (once (matches engine org (at input none))),
      rows_iff store.devices none,
    )
