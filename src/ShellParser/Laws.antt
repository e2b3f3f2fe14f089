-- ===== src/ShellParser/Laws.antt =====
-- When a process list shows a port.
use Prim.Native.Char.{Char, code}
use mathlib.Core.Path.{subst}
use text.Mathlib.TextLemmas.{nil-append, cons-append}
use text.Mathlib.TextEquality.{Char-path}
use gpupgrade.Base.{
  after_prefix, false, String, ◌<>◌, ℤ, ◌≡◌, ◌≢◌, ◌↔◌, ◌∙◌, sym, ap, refl, true, none, some,
  if◌then◌else◌, ◌==◌, ==_iff, nat_eq, string_eq, decimal, arith, inl, inr, Bool-cases,
  Option-cases,
}
use gpupgrade.Base.Text.Laws.{two_dashes, decimal-two_dashes}
use gpupgrade.ShellParser.{
  is_digit, digits, port_after, match_here, first_match, find_string_submatch,
  is_pg_upgrade_running, port_in_rest,
}

-- The rest of a text behind its digits.
behind : String → String
behind String.[] = ""
behind (String.◌∷◌ c s) = let rest = behind s in if is_digit c then rest else String.◌∷◌ c s

digits-behind : (s : String) → s ≡ digits s <> behind s
unfolding digits behind
digits-behind String.[] = sym (nil-append "")
digits-behind (String.◌∷◌ c s) =
    ground
      (arith, digits-behind s, cons-append c (digits s) (behind s), nil-append (String.◌∷◌ c s))

after_prefix-split :
    (prefix s rest : String) → after_prefix prefix s ≡ some rest → s ≡ prefix <> rest
unfolding after_prefix
after_prefix-split String.[] s rest h = ground (arith, nil-append rest)
after_prefix-split (String.◌∷◌ d prefix) String.[] rest h = cc
after_prefix-split (String.◌∷◌ d prefix) (String.◌∷◌ c s) rest h =
    ground (arith, after_prefix-split prefix s rest, Char-path c d, cons-append d prefix rest)

-- A text of digits alone, and one that does not go on with a digit.
abbrev pub IsNumber : String → Type 0
IsNumber String.[] = Unit
IsNumber (String.◌∷◌ c s) = (is_digit c ≡ true) × IsNumber s

abbrev pub EndsNumber : String → Type 0
EndsNumber String.[] = Unit
EndsNumber (String.◌∷◌ c s) = is_digit c ≡ false

-- At the start of a text stand the words `--old-port`, a character that is no line end, and the number
-- `port`, of a digit at least, in its whole length.
abbrev pub MatchesAt : Char → String → String → Type 0
MatchesAt c port s =
    (code c ≢ 10)
    × (port ≢ "")
    × IsNumber port
    × (after : String) × (s ≡ "--old-port" <> (String.◌∷◌ c (port <> after)))
    × EndsNumber after

-- The first place of a text where something matches.
pub data FirstMatch (c : Char) (port : String) : String → Type 0 where
  here : {s : String} → MatchesAt c port s → FirstMatch c port s
  later :
      {d : Char} {s : String}
      → ((b : Char) (other : String) → MatchesAt b other (String.◌∷◌ d s) → ⊥)
      → FirstMatch c port s
      → FirstMatch c port (String.◌∷◌ d s)

digits-IsNumber : (s : String) → IsNumber (digits s)
unfolding digits
digits-IsNumber String.[] = tt
digits-IsNumber (String.◌∷◌ c s) = elim (Bool-cases (is_digit c)) [
  | inl e ↦ rw e (e, digits-IsNumber s)
  | inr e ↦ rw e tt
]

behind-EndsNumber : (s : String) → EndsNumber (behind s)
unfolding behind
behind-EndsNumber String.[] = tt
behind-EndsNumber (String.◌∷◌ c s) = elim (Bool-cases (is_digit c)) [
  | inl e ↦ rw e (behind-EndsNumber s)
  | inr e ↦ rw e e
]

digits_none : (after : String) → EndsNumber after → digits after ≡ ""
unfolding digits
digits_none String.[] h = refl
digits_none (String.◌∷◌ c s) h = rw h refl

-- The digits at the start are the number that stands there.
digits-number :
    (port after : String) → IsNumber port → EndsNumber after → digits (port <> after) ≡ port
unfolding digits
digits-number String.[] after number ends = rw (nil-append after) (digits_none after ends)
digits-number (String.◌∷◌ c port) after (e, number) ends =
    rw (cons-append c port after, e, digits-number port after number ends) refl

after_prefix-append : (prefix rest : String) → after_prefix prefix (prefix <> rest) ≡ some rest
unfolding after_prefix
after_prefix-append String.[] rest = ap some (nil-append rest)
after_prefix-append (String.◌∷◌ d prefix) rest =
    rw (cons-append d prefix rest) (ground (arith, after_prefix-append prefix rest))

port_after-number :
    (c : Char) (port after : String)
    → code c ≢ 10
    → port ≢ ""
    → IsNumber port
    → EndsNumber after
    → port_after (String.◌∷◌ c (port <> after)) ≡ some (c, port)
unfolding port_after
port_after-number c port after no_end some_digit number ends =
    ground (arith, digits-number port after number ends, ==_iff port "", ==_iff (code c) 10)

match_here-MatchesAt :
    (s : String) (c : Char) (port : String) → MatchesAt c port s → match_here s ≡ some (c, port)
unfolding match_here
match_here-MatchesAt s c port (no_end, some_digit, number, after, split, ends) =
    rw (split, after_prefix-append) (port_after-number c port after no_end some_digit number ends)

port_after-split :
    (s : String) (c : Char) (port : String)
    → port_after s ≡ some (c, port)
    → (code c ≢ 10) × (port ≢ "") × (rest : String) × (s ≡ String.◌∷◌ c rest) × (port ≡ digits rest)
unfolding port_after
port_after-split String.[] c port h = cc
port_after-split (String.◌∷◌ d s) c port h = elim (Bool-cases (code d == 10)) [
  | inl e ↦ absurd (ground arith)
  | inr e ↦ elim (Bool-cases (digits s == "")) [
    | inl f ↦ absurd (ground arith)
    | inr f ↦ (
      ground (arith, ==_iff (code d) 10),
      ground (arith, ==_iff (digits s) ""),
      s,
      ground arith,
      ground arith,
    )
  ]
]

MatchesAt-match_here :
    (s : String) (c : Char) (port : String) → match_here s ≡ some (c, port) → MatchesAt c port s
unfolding match_here
MatchesAt-match_here s c port h = elim (Option-cases (after_prefix "--old-port" s)) [
  | inl e ↦ absurd (ground arith)
  | inr (rest, e) ↦
      let found : port_after rest ≡ some (c, port) = ap port_in_rest (sym e) ∙ h in
      let (no_end, some_digit, t, split, same) = port_after-split rest c port found in
      (
        no_end,
        some_digit,
        subst IsNumber (sym same) (digits-IsNumber t),
        behind t,
        after_prefix-split "--old-port" s rest e
            ∙ ap (λ u. "--old-port" <> u)
                (split
                  ∙ ap (λ u. String.◌∷◌ c u)
                      (digits-behind t ∙ ap (λ u. u <> behind t) (sym same))),
        behind-EndsNumber t,
      )
]

match_here_empty : match_here "" ≡ none
unfolding match_here after_prefix
match_here_empty = refl

FirstMatch-first_match :
    (s : String) (c : Char) (port : String) → first_match s ≡ some (c, port) → FirstMatch c port s
unfolding first_match
FirstMatch-first_match String.[] c port h = cc
FirstMatch-first_match (String.◌∷◌ d s) c port h =
    elim (Option-cases (match_here (String.◌∷◌ d s))) [
      | inl e ↦
          later (λ b other m. cc (match_here-MatchesAt (String.◌∷◌ d s) b other m, e))
            (FirstMatch-first_match s c port (ground arith))
      | inr (m, e) ↦ here (MatchesAt-match_here (String.◌∷◌ d s) c port (ground arith))
    ]

first_match-FirstMatch :
    (s : String) (c : Char) (port : String) → FirstMatch c port s → first_match s ≡ some (c, port)
unfolding first_match
first_match-FirstMatch String.[] c port (here m) =
    cc (match_here-MatchesAt "" c port m, match_here_empty)
first_match-FirstMatch (String.◌∷◌ d s) c port (here m) =
    ground (arith, match_here-MatchesAt (String.◌∷◌ d s) c port m)
first_match-FirstMatch (String.◌∷◌ d s) c port (later earlier m) =
    elim (Option-cases (match_here (String.◌∷◌ d s))) [
      | inl e ↦ ground (arith, first_match-FirstMatch s c port m)
      | inr ((b, other), e) ↦
          absurd (earlier b other (MatchesAt-match_here (String.◌∷◌ d s) b other e))
    ]

whole-ne-decimal :
    (c : Char) (port : String) (z : ℤ) → ("--old-port" <> (String.◌∷◌ c port)) ≢ decimal z
whole-ne-decimal c port z e =
    let yes_dashes : two_dashes ("--old-port" <> (String.◌∷◌ c port)) ≡ true =
      rw
        (
          cons-append "-" "-old-port" (String.◌∷◌ c port),
          cons-append "-" "old-port" (String.◌∷◌ c port),
        )
        refl in
    cc (ap two_dashes e, decimal-two_dashes z)

first_match_empty : first_match "" ≡ none
unfolding first_match
first_match_empty = refl

running-of_match :
    (port : ℤ) (output : String) (c : Char)
    → first_match output ≡ some (c, decimal port)
    → is_pg_upgrade_running port output ≡ true
unfolding is_pg_upgrade_running find_string_submatch
running-of_match port output c found = elim (Bool-cases (output == "")) [
  | inl e ↦
      let same : output ≡ "" = (==_iff output "").0 e in cc (ap first_match same, first_match_empty)
  | inr e ↦ rw (e, found) (ground (arith, ==_iff (decimal port) (decimal port)))
]

-- `IsPgUpgradeRunning` answers true exactly if the first match of the output is for the port: at the
-- first place of the output at which the words `--old-port`, a character that is no line end, and a
-- digit stand, the number that follows that character is, in its whole length, the port as it is
-- written in decimal. A port that only a later match shows is not seen.
pub is_pg_upgrade_running-first :
    (port : ℤ) (output : String)
    → (is_pg_upgrade_running port output ≡ true) ↔ ((c : Char) × FirstMatch c (decimal port) output)
unfolding is_pg_upgrade_running find_string_submatch
is_pg_upgrade_running-first port output = (
  λ running. elim (Option-cases (first_match output)) [
    | inl e ↦ absurd (ground arith)
    | inr ((c, d), e) ↦
        let same : d ≡ decimal port = ground (
          arith,
          whole-ne-decimal c d port,
          ==_iff ("--old-port" <> (String.◌∷◌ c d)) (decimal port),
          ==_iff d (decimal port),
        ) in
        let found : first_match output ≡ some (c, decimal port) =
          e ∙ ap (λ (t : String). some (c, t)) same in
        (c, FirstMatch-first_match output c (decimal port) found)
  ],
  λ (c, m). running-of_match port output c (first_match-FirstMatch output c (decimal port) m),
)
