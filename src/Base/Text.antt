-- ===== src/Base/Text.antt =====
-- Texts as Go's `strings` and `fmt` packages read and write them.
pub mod Laws
use Prim.Native.Char.{code}
use Prim.Native.String.{String, ◌++◌ as ◌<>◌}
use mathlib.Core.Bool.{Bool, true, false, ◌&&◌, ◌||◌}
use mathlib.Core.List.{List, [], ◌∷◌}
use mathlib.Core.Option.{Option, none, some}
use Prim.Native.Nat.{ℕ, zero, suc, ◌/◌, ◌%◌}
use gpupgrade.Base.Int.{ℤ, pos, negsuc}
use gpupgrade.Base.Tests.{◌==◌, nat_eq, ltb, if◌then◌else◌}

-- `strings.HasPrefix(s, prefix)`
unfoldable pub has_prefix : String → String → Bool
has_prefix s String.[] = true
has_prefix String.[] (String.◌∷◌ d t) = false
has_prefix (String.◌∷◌ c s) (String.◌∷◌ d t) = code c == code d && has_prefix s t

-- The rest of a text after a prefix.
unfoldable pub after_prefix : String → String → Option String
after_prefix String.[] s = some s
after_prefix (String.◌∷◌ d prefix) String.[] = none
after_prefix (String.◌∷◌ d prefix) (String.◌∷◌ c s) =
    let rest = after_prefix prefix s in if code c == code d then rest else none

-- `strings.Contains(s, t)`
unfoldable pub contains_text : String → String → Bool
unfolding has_prefix
contains_text String.[] t = has_prefix String.[] t
contains_text (String.◌∷◌ c s) t = has_prefix (String.◌∷◌ c s) t || contains_text s t

-- `strings.Join(texts, sep)`
unfoldable pub join_text : List String → String → String
join_text [] sep = ""
join_text (x ∷ []) sep = x
join_text (x ∷ y ∷ rest) sep = x <> (sep <> join_text (y ∷ rest) sep)

-- A text in reverse, for tests on its end.
reverse_onto : String → String → String
reverse_onto String.[] t = t
reverse_onto (String.◌∷◌ c s) t = reverse_onto s (String.◌∷◌ c t)

-- `strings.HasSuffix(s, suffix)`
unfoldable pub has_suffix : String → String → Bool
unfolding has_prefix reverse_onto
has_suffix s t = has_prefix (reverse_onto s "") (reverse_onto t "")

-- `%d` of `fmt`: the decimal digits of a number.
digit_text : ℕ → String
digit_text zero = "0"
digit_text (suc zero) = "1"
digit_text (suc (suc zero)) = "2"
digit_text (suc (suc (suc zero))) = "3"
digit_text (suc (suc (suc (suc zero)))) = "4"
digit_text (suc (suc (suc (suc (suc zero))))) = "5"
digit_text (suc (suc (suc (suc (suc (suc zero)))))) = "6"
digit_text (suc (suc (suc (suc (suc (suc (suc zero))))))) = "7"
digit_text (suc (suc (suc (suc (suc (suc (suc (suc zero)))))))) = "8"
digit_text d = "9"

digits_text : ℕ → ℕ → String → String
digits_text zero n after = after
digits_text (suc fuel) n after =
    let now = digit_text (n % 10) <> after in
    let more = digits_text fuel (n / 10) now in if ltb n 10 then now else more

unfoldable pub decimal : ℤ → String
unfolding digits_text digit_text
decimal (pos n) = digits_text (suc n) n ""
decimal (negsuc n) = "-" <> digits_text (suc (suc n)) (suc n) ""
