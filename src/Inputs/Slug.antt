-- ===== src/Inputs/Slug.antt =====
-- The pattern of slugs in packages/types/src/orgs.ts, against what it stands for: segments of
-- lowercase letters and digits, joined by hyphens.
use mikrotikbandwidthmonitor.Prelude.Bytes.{Text}
use mikrotikbandwidthmonitor.Prelude.{
  length, All, ◌⊎◌, List, ◌<◌, ℕ, ◌≡◌, ◌++◌, refl, ◌∷◌, Bool, [], true,
}
use mikrotikbandwidthmonitor.Inputs.{is_slug_char}

abbrev pub IsSegment : Text → Type 0
IsSegment s = (0 < length s) × All (λ c. is_slug_char c ≡ true) s

-- Segments with a hyphen between two of them.
abbrev pub hyphened : Text → List Text → Text
hyphened s [] = s
hyphened s (t ∷ ts) = s ++ (b'-' ∷ hyphened t ts)

-- A segment that is cut: the characters read so far, the rest of it and the segments behind.
abbrev pub IsSlugFrom : Bool → Text → Type 0
IsSlugFrom begun text =
    (s : Text) × (ts : List Text) × (hyphened s ts ≡ text)
    × All (λ c. is_slug_char c ≡ true) s
    × ((begun ≡ true) ⊎ (0 < length s))
    × All IsSegment ts

abbrev pub IsSlug : Text → Type 0
IsSlug text =
    (s : Text) × (ts : List Text) × (hyphened s ts ≡ text) × IsSegment s × All IsSegment ts

pushed : (c : ℕ) (s : Text) (ts : List Text) → hyphened (c ∷ s) ts ≡ c ∷ hyphened s ts
pushed c s [] = refl
pushed c s (t ∷ ts) = refl
