-- ===== src/Prelude/Decimal.antt =====
-- Numbers in decimal, as a template literal puts them.
use mikrotikbandwidthmonitor.Prelude.{
  ◌++◌, ◌==◌, if◌then◌else◌, Bool-cases, ◌≡◌, [], inl, zero, ℕ, ◌+◌, ◌%◌, suc, ◌/◌, ◌∷◌, inr, refl,
}
use mikrotikbandwidthmonitor.Prelude.Bytes.{Text}

-- The digits of a number before a text. The fuel is more than the count of digits.
unfoldable pub digits_before : (fuel n : ℕ) → Text → Text
digits_before zero n rest = rest
digits_before (suc fuel) n rest =
    let shown : Text = (b'0' + n % 10) ∷ rest in
    let longer = digits_before fuel (n / 10) shown in if n / 10 == 0 then shown else longer

unfoldable pub show_nat : ℕ → Text
unfolding digits_before
show_nat n = digits_before (suc n) n []

digits_before-append :
    (fuel n : ℕ) (s rest : Text) → digits_before fuel n s ++ rest ≡ digits_before fuel n (s ++ rest)
unfolding digits_before
digits_before-append zero n s rest = refl
digits_before-append (suc fuel) n s rest = elim (Bool-cases (n / 10 == 0)) [
  | inl last ↦ rw last refl
  | inr more ↦ rw more (digits_before-append fuel (n / 10) ((b'0' + n % 10) ∷ s) rest)
]

pub show_nat-append : (n : ℕ) (rest : Text) → show_nat n ++ rest ≡ digits_before (suc n) n rest
unfolding show_nat
show_nat-append n rest = digits_before-append (suc n) n [] rest
