-- ===== src/ShellParser.antt =====
-- shellparsers/monitor_shell_parser.go, with the regular expression `--old-port.(\d+)` as Go's regexp
-- package matches it: the leftmost match, and as many digits as there are.
pub mod Laws
use Prim.Native.Char.{Char, code}
use gpupgrade.Base.{
  after_prefix, ℕ, String, ◌<>◌, ℤ, Bool, true, false, not, ◌&&◌, Option, none, some, List, [], ◌∷◌,
  any, leb, if◌then◌else◌, ◌==◌, nat_eq, string_eq, decimal,
}

abbrev pub is_digit : Char → Bool
is_digit c = leb 48 (code c) && leb (code c) 57

-- `\d*`: the digits at the start of a text.
unfoldable pub digits : String → String
digits String.[] = ""
digits (String.◌∷◌ c s) = let rest = digits s in if is_digit c then String.◌∷◌ c rest else ""

-- `.(\d+)`: a character that is no line end, and one digit or more; the two are the result.
unfoldable pub port_after : String → Option (Char × String)
unfolding digits
port_after String.[] = none
port_after (String.◌∷◌ c s) =
    if code c == 10 then none else if digits s == "" then none else some (c, digits s)

abbrev port_in_rest : Option String → Option (Char × String)
port_in_rest none = none
port_in_rest (some rest) = port_after rest

-- The match at the start of a text.
unfoldable pub match_here : String → Option (Char × String)
unfolding after_prefix port_after
match_here s = port_in_rest (after_prefix "--old-port" s)

-- The leftmost match.
unfoldable pub first_match : String → Option (Char × String)
unfolding match_here
first_match String.[] = none
first_match (String.◌∷◌ c s) =
    let later = first_match s in
    elim (match_here (String.◌∷◌ c s)) [ some m ↦ some m | none ↦ later ]

abbrev pub submatches : Option (Char × String) → List String
submatches none = []
submatches (some (c, port)) = ("--old-port" <> (String.◌∷◌ c port)) ∷ port ∷ []

-- `segmentPortRegexp.FindStringSubmatch(output)`: the whole match and its group, or nothing.
unfoldable pub find_string_submatch : String → List String
unfolding first_match
find_string_submatch output = submatches (first_match output)

-- `IsPgUpgradeRunning`
unfoldable pub is_pg_upgrade_running : ℤ → String → Bool
unfolding find_string_submatch
is_pg_upgrade_running target_port output =
    if output == ""
    then false
    else any (λ port. port == decimal target_port) (find_string_submatch output)
