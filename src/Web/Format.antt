-- ===== src/Web/Format.antt =====
-- What apps/web/src/app/(dashboard) makes of an uptime and of the time a device was last seen.
pub mod Uptime
use mikrotikbandwidthmonitor.Prelude.Decimal.{show_nat}
use mikrotikbandwidthmonitor.Prelude.Bytes.{Text, codes}
use mikrotikbandwidthmonitor.Prelude.{
  ltb, if◌then◌else◌, ◌%◌, ℕ, List, ◌++◌, [], Option, ◌-◌, ◌∷◌, none, zero, some, suc, ◌/◌,
}

-- `parts.join(" ")`
unfoldable pub join : List Text → Text
join [] = []
join (t ∷ []) = t
join (t ∷ u ∷ ts) = t ++ (b' ' ∷ join (u ∷ ts))

-- `if (n) parts.push(...)`
abbrev pub part : ℕ → ℕ → List Text
part zero unit = []
part (suc n) unit = (show_nat (suc n) ++ (unit ∷ [])) ∷ []

-- A dash, in UTF-8
abbrev pub em_dash : Text
em_dash = 0xe2 ∷ 0x80 ∷ 0x94 ∷ []

abbrev pub or_less : Text → Text
or_less [] = codes "< 1m"
or_less (c ∷ s) = c ∷ s

-- `formatUptime`
unfoldable pub format_uptime : Option ℕ → Text
unfolding join show_nat
format_uptime none = em_dash
format_uptime (some zero) = em_dash
format_uptime (some (suc n)) =
    let seconds = suc n in
    or_less (
      join (
        part (seconds / 86400) b'd'
        ++ (part (seconds % 86400 / 3600) b'h' ++ part (seconds % 3600 / 60) b'm')))

-- `formatLastSeen`, with times in milliseconds; a time that is still to come is just now.
unfoldable pub format_last_seen : (now : ℕ) → Option ℕ → Text
unfolding show_nat
format_last_seen now none = codes "Never"
format_last_seen now (some at) =
    let secs = (now - at) / 1000 in
    if ltb secs 60
    then codes "Just now"
    else if ltb secs 3600
    then show_nat (secs / 60) ++ codes "m ago"
    else if ltb secs 86400
    then show_nat (secs / 3600) ++ codes "h ago"
    else show_nat (secs / 86400) ++ codes "d ago"
