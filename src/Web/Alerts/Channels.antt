-- ===== src/Web/Alerts/Channels.antt =====
-- `toggleChannel` of apps/web/src/app/(dashboard)/alerts/page.tsx.

-- Channels that the page offers, none of them twice.
use mikrotikbandwidthmonitor.Web.Unique.{
  IsUnique, not_included, IsUnique-push, All-keep, IsUnique-keep,
}
use mikrotikbandwidthmonitor.Web.Alerts.{
  channel_buttons, channel_values, channel_buttons, toggle_channel,
}
use mikrotikbandwidthmonitor.Prelude.Bytes.{Text, text_eq}
use mikrotikbandwidthmonitor.Prelude.{
  false, Bool-cases, some_inj, get_elem?, All, All-append, subst, refl, true, some, inr, ◌≡◌, ◌∷◌,
  inl, suc, ℕ, List, [], not, zero, Bool, false,
}
use mikrotikbandwidthmonitor.Api.Config.{includes}

abbrev pub AreChannels : List Text → Type 0
AreChannels cs = All (λ c. includes c channel_values ≡ true) cs × IsUnique cs

pub toggle_channel-AreChannels :
    (ch : Text) (cs : List Text)
    → includes ch channel_values ≡ true
    → AreChannels cs
    → AreChannels (toggle_channel ch cs)
unfolding toggle_channel
toggle_channel-AreChannels ch cs known (h, u) = elim (Bool-cases (includes ch cs)) [
  | inl selected ↦
      rw (selected, toggle_channel)
        (
          All-keep (λ c. includes c channel_values ≡ true) (λ c. not (text_eq c ch)) cs h,
          IsUnique-keep (λ c. not (text_eq c ch)) cs u,
        )
  | inr new ↦
      rw (new, toggle_channel)
        (
          All-append (λ c. includes c channel_values ≡ true) cs (ch ∷ []) h (known, tt),
          IsUnique-push ch cs (not_included ch cs new) u,
        )
]

-- The buttons are those of the channels that are offered.
pub get_elem_known :
    (shown : Bool) (n : ℕ) {ch : Text}
    → get_elem? (channel_buttons shown) n ≡ some ch
    → includes ch channel_values ≡ true
unfolding includes text_eq
get_elem_known true zero {ch} e = subst (λ c. includes c channel_values ≡ true) (some_inj e) refl
get_elem_known true (suc zero) {ch} e =
    subst (λ c. includes c channel_values ≡ true) (some_inj e) refl
get_elem_known true (suc (suc zero)) {ch} e =
    subst (λ c. includes c channel_values ≡ true) (some_inj e) refl
get_elem_known true (suc (suc (suc n))) {ch} e = cc
get_elem_known false n {ch} e = cc
