-- ===== src/Status/DoneFile.antt =====
-- hub/upgradestatus/pg_upgrade_status_checker.go, lines 134-158: the search of a file's lines for
-- "Upgrade complete", over the buffered reader of `bufio`.
use Prim.Native.Char.{code}
use gpupgrade.Base.{
  ℕ, zero, suc, ◌<◌, String, Bool, true, false, ◌≡◌, Option, none, some, List, [], ◌∷◌, arith, ◌==◌,
  nat_eq, if◌then◌else◌, any, contains_text, Option-cases, inl, inr,
}

-- `r.ReadString('\n')`: the text up to and with the next line end, and what is left behind it. At the
-- end of the file there is no more line end, and the error is `io.EOF`: then nothing is left.
unfoldable pub read_string : String → String × Option String
read_string String.[] = ("", none)
read_string (String.◌∷◌ c s) =
    let rest = read_string s in
    if code c == 10 then (String.◌∷◌ c String.[], some s) else (String.◌∷◌ c rest.0, rest.1)

-- `for err != io.EOF { … }`, on fuel.
unfoldable pub find_complete : ℕ → String → Bool
unfolding read_string contains_text
find_complete zero s = false
find_complete (suc fuel) s =
    let (line, rest) = read_string s in
    elim rest [
      | none ↦ false
      | some s' ↦
          let further = find_complete fuel s' in
          if contains_text line "Upgrade complete" then true else further
    ]

abbrev pub chars : String → ℕ
chars String.[] = 0
chars (String.◌∷◌ c s) = suc (chars s)

unfoldable pub says_complete : String → Bool
unfolding find_complete
says_complete s = find_complete (suc (chars s)) s

-- The lines of a text that a line end closes, each with its line end, and the text behind the last.
pub split_lines : String → List String × String
split_lines String.[] = ([], "")
split_lines (String.◌∷◌ c s) =
    let (lines, tail) = split_lines s in
    if code c == 10
    then (String.◌∷◌ c String.[] ∷ lines, tail)
    else elim lines [ [] ↦ ([], String.◌∷◌ c tail) | l ∷ more ↦ (String.◌∷◌ c l ∷ more, tail) ]

read_string-chars :
    (s : String) {line rest : String} → read_string s ≡ (line, some rest) → chars rest < chars s
unfolding read_string
read_string-chars String.[] h = ground arith
read_string-chars (String.◌∷◌ c s) {line} {rest} h =
    ground (arith, read_string-chars s {line = (read_string s).0} {rest = rest})

split-read_string-some :
    (s line rest : String)
    → read_string s ≡ (line, some rest)
    → (split_lines s).0 ≡ line ∷ (split_lines rest).0
unfolding read_string split_lines
split-read_string-some String.[] line rest h = ground arith
split-read_string-some (String.◌∷◌ c s) line rest h =
    ground (arith, split-read_string-some s (read_string s).0 rest)

split-read_string-none : (s line : String) → read_string s ≡ (line, none) → (split_lines s).0 ≡ []
unfolding read_string split_lines
split-read_string-none String.[] line h = ground arith
split-read_string-none (String.◌∷◌ c s) line h =
    ground (arith, split-read_string-none s (read_string s).0)

find_complete-lines :
    (fuel : ℕ) (s : String)
    → chars s < fuel
    → find_complete fuel s ≡ any (λ l. contains_text l "Upgrade complete") (split_lines s).0
unfolding find_complete
find_complete-lines zero s h = absurd (omega arith)
find_complete-lines (suc fuel) s h = elim (Option-cases (read_string s).1) [
  | inl end ↦ ground (arith, split-read_string-none s (read_string s).0)
  | inr (rest, more) ↦
      let line = (read_string s).0 in
      let read : read_string s ≡ (line, some rest) = ground arith in
      ground (
        arith,
        split-read_string-some s line rest read,
        find_complete-lines fuel rest (omega (arith, read_string-chars s read)),
      )
]

-- The loop finds "Upgrade complete" in exactly the texts that have it in a line with a line end.
pub says_complete-any :
    (s : String) → says_complete s ≡ any (λ l. contains_text l "Upgrade complete") (split_lines s).0
unfolding says_complete
says_complete-any s = find_complete-lines (suc (chars s)) s (omega arith)
