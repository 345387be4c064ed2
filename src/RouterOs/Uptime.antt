-- ===== src/RouterOs/Uptime.antt =====
-- `parseInt(_, 10)` as apps/api/src/lib/routeros-api.ts uses it, and `parseUptime`. A number stands
-- for its exact value, which JavaScript keeps below 2 ^ 53.
use mikrotikbandwidthmonitor.Prelude.{
  ℕ, zero, suc, ◌+◌, ◌-◌, ◌*◌, ◌<◌, ◌≡◌, refl, ap, ◌∙◌, Bool, true, false, ◌&&◌, ◌||◌, Option, none,
  some, List, [], ◌∷◌, ◌++◌, leb, ◌==◌, if◌then◌else◌, length, length-append, All, arith,
}
use mathlib.Core.List.{append_assoc}
use mikrotikbandwidthmonitor.Prelude.Int.{ℤ, pos, negsuc}
use mikrotikbandwidthmonitor.Prelude.Bytes.{Text}

abbrev pub is_digit : ℕ → Bool
is_digit c = leb b'0' c && leb c b'9'

-- A number or NaN.
pub data Number : Type 0 where
  nan : Number
  int : ℤ → Number

abbrev pub negate : ℕ → ℤ
negate zero = pos zero
negate (suc n) = negsuc n

-- A run of digits and one more.
abbrev pub extend : Option ℕ → ℕ → ℕ
extend none c = c - b'0'
extend (some n) c = n * 10 + (c - b'0')

-- The value of the digits at the front, if there is one.
unfoldable pub parse_digits : Option ℕ → Text → Option ℕ
parse_digits run [] = run
parse_digits run (c ∷ s) = elim (is_digit c) [
  | true ↦ parse_digits (some (extend run c)) s
  | false ↦ run
]

abbrev signed : (ℕ → ℤ) → Option ℕ → Number
signed sign none = nan
signed sign (some n) = int (sign n)

abbrev parse_signed : Text → Number
parse_signed [] = nan
parse_signed (c ∷ s) =
    if c == b'-'
    then signed negate (parse_digits none s)
    else if c == b'+'
    then signed pos (parse_digits none s)
    else signed pos (parse_digits none (c ∷ s))

abbrev is_space : ℕ → Bool
is_space c = c == 32 || (leb 9 c && leb c 13)

-- `parseInt(s, 10)`, over ASCII white space
unfoldable pub parse_int : Text → Number
unfolding parse_digits
parse_int [] = nan
parse_int (c ∷ s) = elim (is_space c) [ true ↦ parse_int s | false ↦ parse_signed (c ∷ s) ]

-- `s.match(/(\d+)u/)` and `parseInt` of the group: the first run of digits that `u` follows. `run`
-- is the value of the run that ends here, if one does.
unfoldable pub match_unit : ℕ → Option ℕ → Text → Option ℕ
match_unit u run [] = none
match_unit u run (c ∷ s) = elim (is_digit c) [
  | true ↦ match_unit u (some (extend run c)) s
  | false ↦ elim (c == u) [
    | true ↦ elim run [ none ↦ match_unit u none s | some n ↦ some n ]
    | false ↦ match_unit u none s
  ]
]

-- `if (m) total += parseInt(m[1]) * weight`
abbrev add_unit : ℕ → Option ℕ → ℕ → ℕ
add_unit total none weight = total
add_unit total (some n) weight = total + n * weight

-- `total || undefined`
abbrev pub nonzero : ℕ → Option ℕ
nonzero zero = none
nonzero (suc n) = some (suc n)

unfoldable pub parse_uptime : Option Text → Option ℕ
parse_uptime none = none
parse_uptime (some []) = none
parse_uptime (some (c ∷ s)) =
    let weeks = match_unit b'w' none (c ∷ s) in
    let days = match_unit b'd' none (c ∷ s) in
    let hours = match_unit b'h' none (c ∷ s) in
    let mins = match_unit b'm' none (c ∷ s) in
    let secs = match_unit b's' none (c ∷ s) in
    nonzero (
      add_unit
        (add_unit (add_unit (add_unit (add_unit 0 weeks 604800) days 86400) hours 3600) mins 60)
        secs 1)

-- One part of an uptime, as RouterOS prints it: digits and a unit.
pub record Part : Type 0 where
  pub digits : Text
  pub unit : ℕ

pub record IsPart (p : Part) : Type 0 where
  pub filled : 0 < length p.digits
  pub numeric : All (λ c. is_digit c ≡ true) p.digits
  pub letter : is_digit p.unit ≡ false

abbrev pub text_of : List Part → Text
text_of [] = []
text_of (p ∷ ps) = (p.digits ++ (p.unit ∷ [])) ++ text_of ps

-- The decimal value of digits.
abbrev value_from : ℕ → Text → ℕ
value_from n [] = n
value_from n (c ∷ s) = value_from (n * 10 + (c - b'0')) s

abbrev pub decimal : Text → ℕ
decimal s = value_from 0 s

-- The count of the first part of a unit.
abbrev pub count_of : ℕ → List Part → Option ℕ
count_of u [] = none
count_of u (p ∷ ps) = if p.unit == u then some (decimal p.digits) else count_of u ps

-- The count or 0.
abbrev pub or_zero : Option ℕ → ℕ
or_zero none = 0
or_zero (some n) = n

abbrev pub amount : ℕ → List Part → ℕ
amount u ps = or_zero (count_of u ps)

-- The seconds that the parts stand for.
abbrev pub seconds : List Part → ℕ
seconds ps =
    amount b'w' ps * 604800
    + amount b'd' ps * 86400
    + amount b'h' ps * 3600
    + amount b'm' ps * 60
    + amount b's' ps

match_digits :
    (u v n : ℕ) (ds rest : Text)
    → All (λ c. is_digit c ≡ true) ds
    → is_digit v ≡ false
    → match_unit u (some n) (ds ++ (v ∷ rest))
      ≡ (if v == u then some (value_from n ds) else match_unit u none rest)
unfolding match_unit
match_digits u v n [] rest h hv = ground arith
match_digits u v n (d ∷ ds) rest (hd, h) hv =
    ground (arith, match_digits u v (n * 10 + (d - b'0')) ds rest h hv)

match_part :
    (u v : ℕ) (ds rest : Text)
    → 0 < length ds
    → All (λ c. is_digit c ≡ true) ds
    → is_digit v ≡ false
    → match_unit u none (ds ++ (v ∷ rest))
      ≡ (if v == u then some (decimal ds) else match_unit u none rest)
unfolding match_unit
match_part u v [] rest p h hv = elim p [ ]
match_part u v (d ∷ ds) rest p (hd, h) hv =
    let first : 0 * 10 + (d - b'0') ≡ d - b'0' = omega arith in
    rw first (ground (arith, match_digits u v (d - b'0') ds rest h hv))

match_unit-text_of :
    (u : ℕ) (ps : List Part) → All IsPart ps → match_unit u none (text_of ps) ≡ count_of u ps
match_unit-text_of u [] h = unfold match_unit in refl
match_unit-text_of u (p ∷ ps) (hp, h) = rw append_assoc (
    match_part u p.unit p.digits (text_of ps) hp.filled hp.numeric hp.letter
    ∙ ap (λ o. if p.unit == u then some (decimal p.digits) else o) (match_unit-text_of u ps h))

add_unit_lem :
    (total weight : ℕ) (o : Option ℕ) → add_unit total o weight ≡ total + or_zero o * weight
add_unit_lem total weight none = omega arith
add_unit_lem total weight (some n) = refl

pub parse_uptime_filled :
    (t : Text)
    → 0 < length t
    → parse_uptime (some t)
      ≡ nonzero (
          or_zero (match_unit b'w' none t) * 604800
          + or_zero (match_unit b'd' none t) * 86400
          + or_zero (match_unit b'h' none t) * 3600
          + or_zero (match_unit b'm' none t) * 60
          + or_zero (match_unit b's' none t))
unfolding parse_uptime
parse_uptime_filled [] h = elim h [ ]
parse_uptime_filled (c ∷ s) h = simp add_unit_lem (ap nonzero (omega arith))

-- On parts in any order, each of some digits and a unit, `parseUptime` gives the seconds that they
-- stand for (the first part counts where a unit is repeated, and units other than w, d, h, m and s
-- count nothing), and `undefined` where that is 0.
pub parse_uptime-text_of :
    (p : Part) (ps : List Part)
    → All IsPart (p ∷ ps)
    → parse_uptime (some (text_of (p ∷ ps))) ≡ nonzero (seconds (p ∷ ps))
parse_uptime-text_of p ps h =
    parse_uptime_filled (text_of (p ∷ ps)) (
      omega (
        arith,
        length-append (p.digits ++ (p.unit ∷ [])) (text_of ps),
        length-append p.digits (p.unit ∷ []),
      ))
    ∙ rw (
      match_unit-text_of b'w' (p ∷ ps) h,
      match_unit-text_of b'd' (p ∷ ps) h,
      match_unit-text_of b'h' (p ∷ ps) h,
      match_unit-text_of b'm' (p ∷ ps) h,
      match_unit-text_of b's' (p ∷ ps) h,
    )
