-- ===== src/Base/Text/Laws.antt =====
-- How a number's text begins.
use Prim.Native.Char.{Char, code}
use Prim.Native.Nat.{ℕ, zero, suc, ◌/◌, ◌%◌}
use Prim.Native.String.{String, ◌++◌ as ◌<>◌}
use text.Mathlib.TextLemmas.{nil-append, cons-append}
use mathlib.Core.Path.{◌≡◌, refl}
use mathlib.Core.Bool.{Bool, false, ◌&&◌}
use native.Mathlib.Omega.{arith}
use gpupgrade.Base.Int.{ℤ, pos, negsuc}
use gpupgrade.Base.Tests.{◌==◌, nat_eq}
use gpupgrade.Base.Text.{digit_text, digits_text, decimal}

abbrev pub begins_dash : String → Bool
begins_dash String.[] = false
begins_dash (String.◌∷◌ c s) = code c == 45

-- The text begins with two dashes.
abbrev pub two_dashes : String → Bool
two_dashes String.[] = false
two_dashes (String.◌∷◌ c s) = code c == 45 && begins_dash s

begins_dash-append :
    (c : Char) (s after : String) → begins_dash (String.◌∷◌ c s <> after) ≡ (code c == 45)
begins_dash-append c s after = rw (cons-append c s after) refl

digit_text-begins_dash : (n : ℕ) (after : String) → begins_dash (digit_text n <> after) ≡ false
unfolding digit_text
digit_text-begins_dash zero after = begins_dash-append "0" "" after
digit_text-begins_dash (suc zero) after = begins_dash-append "1" "" after
digit_text-begins_dash (suc (suc zero)) after = begins_dash-append "2" "" after
digit_text-begins_dash (suc (suc (suc zero))) after = begins_dash-append "3" "" after
digit_text-begins_dash (suc (suc (suc (suc zero)))) after = begins_dash-append "4" "" after
digit_text-begins_dash (suc (suc (suc (suc (suc zero))))) after = begins_dash-append "5" "" after
digit_text-begins_dash (suc (suc (suc (suc (suc (suc zero)))))) after =
    begins_dash-append "6" "" after
digit_text-begins_dash (suc (suc (suc (suc (suc (suc (suc zero))))))) after =
    begins_dash-append "7" "" after
digit_text-begins_dash (suc (suc (suc (suc (suc (suc (suc (suc zero)))))))) after =
    begins_dash-append "8" "" after
digit_text-begins_dash (suc (suc (suc (suc (suc (suc (suc (suc (suc n))))))))) after =
    begins_dash-append "9" "" after

digits_text-begins_dash :
    (fuel n : ℕ) (after : String)
    → begins_dash after ≡ false
    → begins_dash (digits_text fuel n after) ≡ false
unfolding digits_text
digits_text-begins_dash zero n after h = h
digits_text-begins_dash (suc fuel) n after h = ground (
  arith,
  digit_text-begins_dash (n % 10) after,
  digits_text-begins_dash fuel (n / 10) (digit_text (n % 10) <> after),
)

two_dashes-begins_dash : (s : String) → begins_dash s ≡ false → two_dashes s ≡ false
two_dashes-begins_dash String.[] h = refl
two_dashes-begins_dash (String.◌∷◌ c s) h = ground arith

-- No number is written with two dashes.
pub decimal-two_dashes : (z : ℤ) → two_dashes (decimal z) ≡ false
unfolding decimal
decimal-two_dashes (pos n) =
    two_dashes-begins_dash (digits_text (suc n) n "") (digits_text-begins_dash (suc n) n "" refl)
decimal-two_dashes (negsuc n) =
    let rest = digits_text (suc (suc n)) (suc n) "" in
    rw (cons-append "-" "" rest, nil-append rest)
      (digits_text-begins_dash (suc (suc n)) (suc n) "" refl)
