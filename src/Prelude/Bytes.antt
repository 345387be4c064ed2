-- ===== src/Prelude/Bytes.antt =====
-- Node's `Buffer` as a list of bytes, and text as the list of its UTF-8 bytes. `indexed` by a
-- signed number, as the source does.
use Prim.Native.Char.{code}
use Prim.Native.String.{String}
use mikrotikbandwidthmonitor.Prelude.{
  ℕ, suc, ◌-◌, ◌<◌, ◌≡◌, refl, ◌↔◌, Bool, true, false, ◌&&◌, Option, none, List, [], ◌∷◌, ◌==◌,
  length, get_elem?, take, drop, arith,
}
use mikrotikbandwidthmonitor.Prelude.Int.{ℤ, pos, negsuc}

abbrev pub Buffer : Type 0
Buffer = List ℕ

abbrev pub Text : Type 0
Text = List ℕ

abbrev pub IsByte : ℕ → Type 0
IsByte b = b < 256

-- The bytes of an ASCII literal.
abbrev pub codes : String → Text
codes String.[] = []
codes (String.◌∷◌ c s) = code c ∷ codes s

-- `s === t`
unfoldable pub text_eq : Text → Text → Bool
text_eq [] [] = true
text_eq [] (c ∷ t) = false
text_eq (c ∷ s) [] = false
text_eq (c ∷ s) (d ∷ t) = c == d && text_eq s t

pub text_eq_iff : (s t : Text) → (text_eq s t ≡ true) ↔ (s ≡ t)
unfolding text_eq
text_eq_iff [] [] = (λ _. refl, λ _. refl)
text_eq_iff [] (c ∷ t) = (λ h. cc, λ h. cc)
text_eq_iff (c ∷ s) [] = (λ h. cc, λ h. cc)
text_eq_iff (c ∷ s) (d ∷ t) = ground (arith, text_eq_iff s t)

-- `buf[i]`; `none` is `undefined`
abbrev pub byte_at : Buffer → ℤ → Option ℕ
byte_at buf (pos i) = get_elem? buf i
byte_at buf (negsuc i) = none

-- An index given to `subarray`: a negative one counts from the end, and both stop at the ends.
abbrev pub clamp_index : Buffer → ℤ → ℕ
clamp_index buf (pos i) = i
clamp_index buf (negsuc i) = length buf - suc i

-- `buf.subarray(from, to)` and `buf.subarray(from)`
abbrev pub subarray : Buffer → ℤ → ℤ → Buffer
subarray buf from to =
    take (clamp_index buf to - clamp_index buf from) (drop (clamp_index buf from) buf)

abbrev pub subarray_from : Buffer → ℤ → Buffer
subarray_from buf from = drop (clamp_index buf from) buf
