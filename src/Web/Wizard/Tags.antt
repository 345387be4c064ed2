-- ===== src/Web/Wizard/Tags.antt =====
-- The tags of the first step of apps/web/src/components/add-device-wizard.
use mikrotikbandwidthmonitor.Web.Unique.{
  IsUnique, not_included, IsUnique-push, All-keep, IsUnique-keep,
}
use mikrotikbandwidthmonitor.Prelude.{
  ℕ, ◌≡◌, ◌≢◌, true, false, not, ◌&&◌, List, [], ◌∷◌, All, All-append, Bool-cases, inl, inr, arith,
}
use mikrotikbandwidthmonitor.Prelude.Bytes.{Text, text_eq}
use mikrotikbandwidthmonitor.Api.Config.{includes}
use mikrotikbandwidthmonitor.Web.Text.{trim, filled_text, without}
use mikrotikbandwidthmonitor.Web.Wizard.Forms.{add_tag, remove_tag}

-- A tag is not empty and has no comma.
abbrev pub IsTag : Text → Type 0
IsTag t = (filled_text t ≡ true) × All (λ c. b',' ≢ c) t

abbrev pub AreTags : List Text → Type 0
AreTags ts = All IsTag ts × IsUnique ts

without-All : (c : ℕ) (s : Text) → All (λ d. c ≢ d) (without c s)
unfolding without
without-All c [] = tt
without-All c (d ∷ s) = ground (arith, without-All c s)

pub add_tag-AreTags : (input : Text) (ts : List Text) → AreTags ts → AreTags (add_tag input ts)
unfolding add_tag
add_tag-AreTags input ts (h, u) =
    let tag = without b',' (trim input) in
    elim (Bool-cases (filled_text tag && not (includes tag ts))) [
      | inr kept ↦ rw (kept, add_tag) (h, u)
      | inl pushed ↦
          let filled : filled_text tag ≡ true = ground arith in
          let new : includes tag ts ≡ false = ground arith in
          rw (pushed, add_tag)
            (
              All-append IsTag ts (tag ∷ []) h ((filled, without-All b',' (trim input)), tt),
              IsUnique-push tag ts (not_included tag ts new) u,
            )
    ]

pub remove_tag-AreTags : (tag : Text) (ts : List Text) → AreTags ts → AreTags (remove_tag tag ts)
unfolding remove_tag
remove_tag-AreTags tag ts (h, u) =
    (All-keep IsTag (λ t. not (text_eq t tag)) ts h, IsUnique-keep (λ t. not (text_eq t tag)) ts u)
