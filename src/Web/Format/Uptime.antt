-- ===== src/Web/Format/Uptime.antt =====
-- What formatUptime of apps/web/src/app/(dashboard)/devices/[id]/page.tsx shows, read by parseUptime
-- of apps/api/src/lib/routeros-api.ts.
-- A count and its unit.
use mikrotikbandwidthmonitor.Web.Format.{join, part, or_less, format_uptime}
use mikrotikbandwidthmonitor.Prelude.Bytes.{Text, codes}
use mathlib.Core.List.{append_assoc, map-append}
use mikrotikbandwidthmonitor.Prelude.Decimal.{show_nat-append, digits_before, show_nat}
use mikrotikbandwidthmonitor.Prelude.{
  ◌==◌, if◌then◌else◌, Bool-cases, ℕ, ◌<◌, [], ◌/◌, inl, ◌%◌, List, Option, none, inr, ◌∷◌, ◌+◌,
  arith, suc, zero, ◌≡◌, ◌∙◌, ◌++◌, some, false, ap, All, map, ◌≢◌, refl, true, length,
  length-append, All-append, ◌*◌, ◌-◌, ltb, ltb→lt, ◌≤◌,
}
use mikrotikbandwidthmonitor.RouterOs.Uptime.{
  is_digit, match_unit, extend, or_zero, nonzero, parse_uptime, parse_uptime_filled,
}

abbrev Counted : Type 0
Counted = ℕ × ℕ

abbrev show_counted : Counted → Text
show_counted c = show_nat c.0 ++ (c.1 ∷ [])

-- The count of a unit, where it is shown.
abbrev counted : ℕ → List Counted → Option ℕ
counted u [] = none
counted u (c ∷ cs) = if c.1 == u then some c.0 else counted u cs

-- One digit more.
match_unit-digit :
    (u k n : ℕ) (run : Option ℕ) (rest : Text)
    → k < 10
    → extend run (b'0' + k) ≡ n
    → match_unit u run ((b'0' + k) ∷ rest) ≡ match_unit u (some n) rest
unfolding match_unit
match_unit-digit u k n run rest l e =
    let digit : is_digit (b'0' + k) ≡ true = ground arith in
    rw (digit, match_unit) (ap (λ m. match_unit u (some m) rest) e)

-- Reading the digits of a number gives the number.
match_unit-digits :
    (u fuel n : ℕ) (rest : Text)
    → n < fuel
    → match_unit u none (digits_before fuel n rest) ≡ match_unit u (some n) rest
unfolding digits_before
match_unit-digits u zero n rest l = elim l [ ]
match_unit-digits u (suc fuel) n rest l = elim (Bool-cases (n / 10 == 0)) [
  | inl last ↦
      rw (last, digits_before)
        (match_unit-digit u (n % 10) n none rest (omega arith) (ground arith))
  | inr more ↦
      rw (more, digits_before)
        (match_unit-digits u fuel (n / 10) ((b'0' + n % 10) ∷ rest) (ground arith)
          ∙ match_unit-digit u (n % 10) n (some (n / 10)) rest (omega arith) (omega arith))
]

match_unit-letter :
    (u v n : ℕ) (rest : Text)
    → is_digit v ≡ false
    → match_unit u (some n) (v ∷ rest) ≡ (if v == u then some n else match_unit u none rest)
unfolding match_unit
match_unit-letter u v n rest h = ground arith

match_unit-show_nat :
    (u v n : ℕ) (rest : Text)
    → is_digit v ≡ false
    → match_unit u none (show_nat n ++ (v ∷ rest))
      ≡ (if v == u then some n else match_unit u none rest)
match_unit-show_nat u v n rest h =
    rw (show_nat-append n (v ∷ rest))
      (match_unit-digits u (suc n) n (v ∷ rest) (omega arith) ∙ match_unit-letter u v n rest h)

match_unit-space :
    (u : ℕ) (rest : Text) → u ≢ b' ' → match_unit u none (b' ' ∷ rest) ≡ match_unit u none rest
unfolding match_unit
match_unit-space u rest h = ground arith

abbrev AreUnits : List Counted → Type 0
AreUnits cs = All (λ c. is_digit c.1 ≡ false) cs

match_unit-join :
    (u : ℕ) (cs : List Counted)
    → u ≢ b' '
    → AreUnits cs
    → match_unit u none (join (map show_counted cs)) ≡ counted u cs
unfolding join
match_unit-join u [] s h = unfold match_unit in refl
match_unit-join u ((n, v) ∷ []) s (hv, h) =
    match_unit-show_nat u v n [] hv ∙ unfold match_unit in refl
match_unit-join u ((n, v) ∷ c ∷ cs) s (hv, h) = rw append_assoc (
    match_unit-show_nat u v n (b' ' ∷ join (map show_counted (c ∷ cs))) hv
    ∙ ap (λ o. if v == u then some n else o)
        (match_unit-space u (join (map show_counted (c ∷ cs))) s ∙ match_unit-join u (c ∷ cs) s h))

-- The counts that are shown.
abbrev piece : ℕ → ℕ → List Counted
piece zero unit = []
piece (suc n) unit = (suc n, unit) ∷ []

part-piece : (n unit : ℕ) → part n unit ≡ map show_counted (piece n unit)
part-piece zero unit = refl
part-piece (suc n) unit = refl

abbrev pieces : (d h m : ℕ) → List Counted
pieces d h m = piece d b'd' ++ (piece h b'h' ++ piece m b'm')

parts-pieces :
    (d h m : ℕ) → part d b'd' ++ (part h b'h' ++ part m b'm') ≡ map show_counted (pieces d h m)
parts-pieces d h m = simp (part-piece, map-append)

piece-AreUnits : (n unit : ℕ) → is_digit unit ≡ false → AreUnits (piece n unit)
piece-AreUnits zero unit h = tt
piece-AreUnits (suc n) unit h = (h, tt)

pieces-AreUnits : (d h m : ℕ) → AreUnits (pieces d h m)
pieces-AreUnits d h m =
    let P : Counted → Type 0 = λ c. is_digit c.1 ≡ false in
    All-append P (piece d b'd') _ (piece-AreUnits d b'd' refl)
      (All-append P (piece h b'h') _ (piece-AreUnits h b'h' refl) (piece-AreUnits m b'm' refl))

-- What each unit counts, weeks and seconds included.
abbrev Counts : (d h m : ℕ) → Type 0
Counts d h m =
    (or_zero (counted b'w' (pieces d h m)) ≡ 0)
    × (or_zero (counted b'd' (pieces d h m)) ≡ d)
    × (or_zero (counted b'h' (pieces d h m)) ≡ h)
    × (or_zero (counted b'm' (pieces d h m)) ≡ m)
    × (or_zero (counted b's' (pieces d h m)) ≡ 0)

counts : (d h m : ℕ) → Counts d h m
counts zero zero zero = (refl, refl, refl, refl, refl)
counts zero zero (suc m) = (refl, refl, refl, refl, refl)
counts zero (suc h) zero = (refl, refl, refl, refl, refl)
counts zero (suc h) (suc m) = (refl, refl, refl, refl, refl)
counts (suc d) zero zero = (refl, refl, refl, refl, refl)
counts (suc d) zero (suc m) = (refl, refl, refl, refl, refl)
counts (suc d) (suc h) zero = (refl, refl, refl, refl, refl)
counts (suc d) (suc h) (suc m) = (refl, refl, refl, refl, refl)

-- The text of the counts, where one is shown.
filled : (t : Text) → 0 < length t → or_less t ≡ t
filled [] l = elim l [ ]
filled (c ∷ s) l = refl

length-show : (n unit : ℕ) (t : Text) → 0 < length ((show_nat n ++ (unit ∷ [])) ++ t)
length-show n unit t =
    omega
      (arith, length-append (show_nat n ++ (unit ∷ [])) t, length-append (show_nat n) (unit ∷ []))

length-join : (c : Counted) (cs : List Counted) → 0 < length (join (map show_counted (c ∷ cs)))
unfolding join
length-join (n, v) [] = omega (arith, length-append (show_nat n) (v ∷ []))
length-join (n, v) (c ∷ cs) = length-show n v (b' ' ∷ join (map show_counted (c ∷ cs)))

some_piece :
    (d h m : ℕ) → 0 < d + h + m → (c : Counted) × (cs : List Counted) × (pieces d h m ≡ c ∷ cs)
some_piece zero zero zero l = elim l [ ]
some_piece zero zero (suc m) l = (_, _, refl)
some_piece zero (suc h) m l = (_, _, refl)
some_piece (suc d) h m l = (_, _, refl)

read_pieces :
    (d h m : ℕ)
    → 0 < d + h + m
    → parse_uptime (some (or_less (join (map show_counted (pieces d h m)))))
      ≡ nonzero (d * 86400 + h * 3600 + m * 60)
read_pieces d h m l =
    let (c, cs, e) = some_piece d h m l in
    let t = join (map show_counted (pieces d h m)) in
    let long : 0 < length t = rw e (length-join c cs) in
    let units = pieces-AreUnits d h m in
    let (w, days, hours, mins, secs) = counts d h m in
    rw (filled t long) (
      parse_uptime_filled t long
      ∙ rw
          (
            match_unit-join b'w' (pieces d h m) (omega arith) units,
            match_unit-join b'd' (pieces d h m) (omega arith) units,
            match_unit-join b'h' (pieces d h m) (omega arith) units,
            match_unit-join b'm' (pieces d h m) (omega arith) units,
            match_unit-join b's' (pieces d h m) (omega arith) units,
            w,
            days,
            hours,
            mins,
            secs,
          )
          (ap nonzero (omega arith)))

-- What is left of an uptime: whole minutes, and at least one.
abbrev pub in_minutes : ℕ → ℕ
in_minutes s = if ltb s 60 then 60 else s - s % 60

nonzero-some : (n : ℕ) → 0 < n → nonzero n ≡ some n
nonzero-some zero l = elim l [ ]
nonzero-some (suc n) l = refl

less : parse_uptime (some (codes "< 1m")) ≡ some 60
unfolding parse_uptime match_unit
less = refl

in_seconds : (t : ℕ) → t / 86400 * 86400 + t % 86400 / 3600 * 3600 + t % 3600 / 60 * 60 ≡ t - t % 60
in_seconds t = omega arith

short_uptime : (s : ℕ) → suc s < 60 → parse_uptime (some (format_uptime (some (suc s)))) ≡ some 60
unfolding format_uptime
short_uptime s l =
    let d : suc s / 86400 ≡ 0 = omega arith in
    let h : suc s % 86400 / 3600 ≡ 0 = omega arith in
    let m : suc s % 3600 / 60 ≡ 0 = omega arith in rw (d, h, m) less

long_uptime :
    (s : ℕ)
    → 60 ≤ suc s
    → parse_uptime (some (format_uptime (some (suc s)))) ≡ some (suc s - suc s % 60)
unfolding format_uptime
long_uptime s l =
    let d = suc s / 86400 in
    let h = suc s % 86400 / 3600 in
    let m = suc s % 3600 / 60 in
    rw (parts-pieces d h m) (
      read_pieces d h m (omega arith)
      ∙ ap nonzero (in_seconds (suc s))
      ∙ nonzero-some (suc s - suc s % 60) (omega arith))

-- What the page shows of an uptime, read as the API reads the uptimes of RouterOS, is that uptime
-- without its odd seconds, and a minute where it is less than a minute. Of no uptime, and of 0, the
-- page shows a dash, of which nothing is read.
pub parse_uptime-format_uptime :
    (s : ℕ)
    → (parse_uptime (some (format_uptime (some (suc s)))) ≡ some (in_minutes (suc s)))
      × (parse_uptime (some (format_uptime (some 0))) ≡ none)
      × (parse_uptime (some (format_uptime none)) ≡ none)
parse_uptime-format_uptime s = (
  elim (Bool-cases (ltb (suc s) 60)) [
    | inl brief ↦ rw brief (short_uptime s (ltb→lt _ _ brief))
    | inr long ↦ rw long (long_uptime s (ground arith))
  ],
  unfold format_uptime parse_uptime match_unit in refl,
  unfold format_uptime parse_uptime match_unit in refl,
)
