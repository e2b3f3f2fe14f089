-- ===== src/Cli/Main.antt =====
-- cli/gpupgrade_main.go, `main`; cobra, which reads the arguments, is a parameter.
pub mod Laws
pub mod Flags
use gpupgrade.Base.{
  ℕ, String, ◌≡◌, Bool, true, false, ◌&&◌, Option, none, some, List, [], ◌∷◌, any, All,
  if◌then◌else◌, ◌==◌, string_eq,
}
use gpupgrade.System.{Error}
use gpupgrade.Cli.Session.{error, printed_of, Machine, Cli, pure, ◌>>=◌, ◌>>◌, write}
use gpupgrade.Cli.Flags.{
  Command, TextVar, IntVar, Vars, Target, to_text, to_int, Flag, Setup, same_text, same_int,
  visible,
}
use gpupgrade.Cli.Setup.{declared}
use gpupgrade.Cli.Commands.{Ending, exited, returned, run}

-- What cobra makes of the arguments: an error, a text of help, or a command to run, with the names of
-- the flags that were given and the variables as they then are.
pub data Chosen : Type 0 where
  usage_error : Error → Chosen
  help : Chosen
  runs : Command → List String → Vars → Chosen

abbrev pub sets_text : TextVar → Flag → Bool
sets_text x f = elim f.target [ to_text y ↦ same_text x y | to_int y ↦ false ]

abbrev pub sets_int : IntVar → Flag → Bool
sets_int x f = elim f.target [ to_text y ↦ false | to_int y ↦ same_int x y ]

abbrev pub WasGiven : List String → Flag → Type 0
WasGiven given f = f.required ≡ true → any (λ n. n == f.name) given ≡ true

-- `root.Execute` up to the call of `Run`. It runs a command only if each flag that the command takes
-- and that is required was given.
pub record Cobra : Type 0 where
  pub parse : Setup → List String → Chosen
  pub required_given :
      (s : Setup) (args : List String) (c : Command) (given : List String) (vars : Vars)
      → parse s args ≡ runs c given vars
      → All (WasGiven given) (visible s c)

-- `hubPort`, 7527 unless the environment has another.
unfoldable pub hub_port : Machine → String
hub_port m =
    let upgrade_port = m.getenv "GPUPGRADE_HUB_PORT" in
    if upgrade_port == "" then "7527" else upgrade_port

-- `if err != nil { fmt.Printf("%+v\n", err); os.Exit(1) }`
abbrev pub ended : Ending → Cli ℕ
ended (exited code) = pure code
ended (returned none) = pure 0
ended (returned (some e)) = do write (printed_of e); pure 1

abbrev pub execute : Machine → Chosen → Cli ℕ
execute m (usage_error e) = ended (returned (some e))
execute m help = ended (returned none)
execute m (runs c given vars) = do ending ← run m (hub_port m) vars c; ended ending

-- `main`, on the arguments after the name of the program: the exit code.
unfoldable pub main : Cobra → Machine → List String → Cli ℕ
unfolding run hub_port
main cobra m [] = do
  write (error "Please specify one command of: check, prepare, status, upgrade, or version")
  pure 1
main cobra m (arg ∷ args) = execute m (cobra.parse declared (arg ∷ args))
