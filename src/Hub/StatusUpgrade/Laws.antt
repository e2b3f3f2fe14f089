-- ===== src/Hub/StatusUpgrade/Laws.antt =====
-- hub/services/hub_status_upgrade.go: the status of the primaries.
use Prim.Native.Char.{Char, code}
use text.Mathlib.TextLemmas.{nil-append, cons-append}
use gpupgrade.Base.{
  String, ◌<>◌, Bool, true, not, ◌&&◌, ◌||◌, ◌≡◌, refl, sym, ◌∙◌, ap, List, [], ◌∷◌, arith, any,
  ◌==◌, nat_eq, ==_iff, has_prefix, contains_text, join_text, if◌then◌else◌,
}
use gpupgrade.Idl.{pending, running, complete, failed}
use gpupgrade.Hub.StatusUpgrade.{primaries_status}

-- A text without a space.
spaceless : String → Bool
spaceless String.[] = true
spaceless (String.◌∷◌ c t) = not (code c == 32) && spaceless t

has_prefix-space :
    (s rest t : String)
    → spaceless t ≡ true
    → has_prefix (s <> String.◌∷◌ " " rest) t ≡ has_prefix s t
unfolding has_prefix spaceless
has_prefix-space s rest String.[] h = refl
has_prefix-space String.[] rest (String.◌∷◌ d t) h =
    rw (nil-append (String.◌∷◌ " " rest)) (ground (arith, ==_iff (code d) 32, ==_iff 32 (code d)))
has_prefix-space (String.◌∷◌ c s) rest (String.◌∷◌ d t) h =
    rw (cons-append c s (String.◌∷◌ " " rest))
      (ap (λ b. code c == code d && b) (has_prefix-space s rest t (ground arith)))

-- A word that is in two texts joined by a space is in one of them.
contains_text-space :
    (s rest : String) (d : Char) (t : String)
    → spaceless (String.◌∷◌ d t) ≡ true
    → contains_text (s <> String.◌∷◌ " " rest) (String.◌∷◌ d t)
      ≡ (contains_text s (String.◌∷◌ d t) || contains_text rest (String.◌∷◌ d t))
unfolding contains_text has_prefix
contains_text-space String.[] rest d t h = rw (nil-append (String.◌∷◌ " " rest)) (
    ap (λ b. b || contains_text rest (String.◌∷◌ d t))
      (ap (λ l. has_prefix l (String.◌∷◌ d t)) (sym (nil-append (String.◌∷◌ " " rest)))
        ∙ has_prefix-space "" rest (String.◌∷◌ d t) h))
contains_text-space (String.◌∷◌ c s) rest d t h =
    let same = has_prefix-space (String.◌∷◌ c s) rest (String.◌∷◌ d t) h in
    let later = contains_text-space s rest d t h in
    rw (cons-append c s (String.◌∷◌ " " rest)) (
      ground (
        arith,
        ap (λ l. has_prefix l (String.◌∷◌ d t)) (cons-append c s (String.◌∷◌ " " rest)),
        same,
        later,
      ))

contains_text-join :
    (lines : List String) (d : Char) (t : String)
    → spaceless (String.◌∷◌ d t) ≡ true
    → contains_text (join_text lines " ") (String.◌∷◌ d t)
      ≡ any (λ l. contains_text l (String.◌∷◌ d t)) lines
unfolding join_text contains_text has_prefix
contains_text-join [] d t h = refl
contains_text-join (x ∷ []) d t h = ground arith
contains_text-join (x ∷ y ∷ lines) d t h =
    let rest = join_text (y ∷ lines) " " in
    ap (λ l. contains_text (x <> l) (String.◌∷◌ d t))
      (cons-append " " "" rest ∙ ap (String.◌∷◌ " ") (nil-append rest))
    ∙ contains_text-space x rest d t h
    ∙ ap (λ b. contains_text x (String.◌∷◌ d t) || b) (contains_text-join (y ∷ lines) d t h)

-- The status of the primaries is failed if a line has the word `FAILED`, else running if a line
-- has `RUNNING`, else complete if a line has `COMPLETE`, and else pending.
pub primaries_status-lines :
    (lines : List String)
    → primaries_status lines ≡ (
        if any (λ l. contains_text l "FAILED") lines
        then failed
        else if any (λ l. contains_text l "RUNNING") lines
        then running
        else if any (λ l. contains_text l "COMPLETE") lines
        then complete
        else pending)
unfolding primaries_status spaceless
primaries_status-lines lines = ground (
  arith,
  contains_text-join lines "F" "AILED" refl,
  contains_text-join lines "R" "UNNING" refl,
  contains_text-join lines "C" "OMPLETE" refl,
)
