-- ===== src/Web/Unique.antt =====
-- Lists of texts in which none stands twice.

use mikrotikbandwidthmonitor.Prelude.Bytes.{Text, text_eq_iff}
use mikrotikbandwidthmonitor.Prelude.{
  keep, All, All-append, ◌++◌, ◌≡◌, ◌∷◌, ◌≢◌, arith, false, List, [], Bool, sym,
}
use mikrotikbandwidthmonitor.Api.Config.{includes}

abbrev pub IsUnique : List Text → Type 0
IsUnique [] = Unit
IsUnique (t ∷ ts) = All (λ u. u ≢ t) ts × IsUnique ts

pub not_included : (t : Text) (ts : List Text) → includes t ts ≡ false → All (λ u. u ≢ t) ts
unfolding includes
not_included t [] h = tt
not_included t (u ∷ ts) h =
    (λ e. ground (arith, text_eq_iff t u, e), not_included t ts (ground arith))

pub IsUnique-push :
    (t : Text) (ts : List Text) → All (λ u. u ≢ t) ts → IsUnique ts → IsUnique (ts ++ (t ∷ []))
IsUnique-push t [] h u = (tt, tt)
IsUnique-push t (s ∷ ts) (hs, h) (us, u) =
    (All-append (λ v. v ≢ s) ts (t ∷ []) us ((λ e. hs (sym e)), tt), IsUnique-push t ts h u)

pub All-keep : (P : Text → Type 0) (p : Text → Bool) (ts : List Text) → All P ts → All P (keep p ts)
All-keep P p [] h = tt
All-keep P p (t ∷ ts) (h, hs) = ground (arith, All-keep P p ts hs)

pub IsUnique-keep : (p : Text → Bool) (ts : List Text) → IsUnique ts → IsUnique (keep p ts)
IsUnique-keep p [] u = tt
IsUnique-keep p (t ∷ ts) (h, u) = ground (arith, All-keep (λ v. v ≢ t) p ts h, IsUnique-keep p ts u)
