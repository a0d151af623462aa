-- ===== src/Program/CommandLine.antt =====
-- cmd/dockerfuse/main.go, init, and flag.Parse on its flags: the command line.
pub mod Laws
use dockerfuse.Base.{
  Bool, true, false, Option, none, some, List, [], ◌∷◌, ◌||◌, ◌==◌, if◌then◌else◌, ℕ,
}
use dockerfuse.Base.Text.{Text, str, text_eq}
use dockerfuse.Program
use dockerfuse.Program.{Machine, Main, main}

-- The variables that the flags set.
pub record CommandLine : Type 0 where
  pub container_id : Text
  pub mount_point : Text
  pub path : Text
  pub daemonize : Bool
  pub debug : Bool
  pub jsonlog : Bool
  pub print_version : Bool

abbrev pub defaults : CommandLine
defaults = record {
  container_id = [];
  mount_point = [];
  path = str "/";
  daemonize = false;
  debug = false;
  jsonlog = false;
  print_version = false;
}

-- A variable that a flag sets.
pub data Variable : Type 0 where
  of_text : (Text → CommandLine → CommandLine) → Variable
  of_bool : (Bool → CommandLine → CommandLine) → Variable

abbrev pub set_container_id : Text → CommandLine → CommandLine
set_container_id v c = record c { container_id = v }

abbrev pub set_mount_point : Text → CommandLine → CommandLine
set_mount_point v c = record c { mount_point = v }

abbrev pub set_path : Text → CommandLine → CommandLine
set_path v c = record c { path = v }

abbrev pub set_daemonize : Bool → CommandLine → CommandLine
set_daemonize b c = record c { daemonize = b }

abbrev pub set_debug : Bool → CommandLine → CommandLine
set_debug b c = record c { debug = b }

abbrev pub set_jsonlog : Bool → CommandLine → CommandLine
set_jsonlog b c = record c { jsonlog = b }

abbrev pub set_print_version : Bool → CommandLine → CommandLine
set_print_version b c = record c { print_version = b }

-- The calls of flag.BoolVar and flag.StringVar, by name.
abbrev pub flag_table : List (Text × Variable)
flag_table =
    (str "version", of_bool set_print_version)
    ∷ (str "v", of_bool set_print_version)
    ∷ (str "id", of_text set_container_id)
    ∷ (str "i", of_text set_container_id)
    ∷ (str "mount", of_text set_mount_point)
    ∷ (str "m", of_text set_mount_point)
    ∷ (str "path", of_text set_path)
    ∷ (str "p", of_text set_path)
    ∷ (str "daemonize", of_bool set_daemonize)
    ∷ (str "d", of_bool set_daemonize)
    ∷ (str "debug", of_bool set_debug)
    ∷ (str "json", of_bool set_jsonlog)
    ∷ (str "j", of_bool set_jsonlog)
    ∷ []

unfoldable pub look_up : Text → List (Text × Variable) → Option Variable
unfolding text_eq
look_up name [] = none
look_up name ((n, v) ∷ rest) =
    let later = look_up name rest in if text_eq n name then some v else later

unfoldable pub among : Text → List Text → Bool
unfolding text_eq
among t [] = false
among t (u ∷ us) = text_eq u t || among t us

-- strconv.ParseBool
unfoldable pub parse_bool : Text → Option Bool
unfolding among
parse_bool t =
    if among t (str "1" ∷ str "t" ∷ str "T" ∷ str "TRUE" ∷ str "true" ∷ str "True" ∷ [])
    then some true
    else (if among t (str "0" ∷ str "f" ∷ str "F" ∷ str "FALSE" ∷ str "false" ∷ str "False" ∷ [])
        then some false
        else none)

-- What an argument is: the end of the flags, an error of syntax, or a name with the text after `=`.
pub data Argument : Type 0 where
  no_flag : Argument
  terminator : Argument
  bad_syntax : Argument
  named : Text → Option Text → Argument

-- The text before the first `=` from the second byte on, and the text after it.
unfoldable pub split_value : Text → Text × Option Text
split_value [] = ([], none)
split_value (c ∷ s) =
    let (name, value) = split_value s in if c == b'=' then ([], some s) else (c ∷ name, value)

unfoldable pub name_and_value : Text → Argument
unfolding split_value
name_and_value [] = bad_syntax
name_and_value (c ∷ s) =
    let (name, value) = split_value s in
    if (c == b'-') || (c == b'=') then bad_syntax else named (c ∷ name) value

unfoldable pub argument : Text → Argument
unfolding name_and_value
argument [] = no_flag
argument (c ∷ []) = no_flag
argument (c ∷ d ∷ s) =
    if c == b'-'
    then (if d == b'-'
        then elim s [ [] ↦ terminator | e ∷ r ↦ name_and_value (e ∷ r) ]
        else name_and_value (d ∷ s))
    else no_flag

-- flag.Parse with ExitOnError: -help prints the usage and exits with 0, an error exits with 2.
pub data Parsed : Type 0 where
  parsed : CommandLine → Parsed
  exit : ℕ → Parsed

abbrev pub is_help : Text → Bool
is_help name = text_eq name (str "help") || text_eq name (str "h")

unfoldable pub set_bool :
    (Bool → CommandLine → CommandLine) → Option Text → CommandLine → Option CommandLine
unfolding parse_bool
set_bool set none c = some (set true c)
set_bool set (some t) c = elim (parse_bool t) [ none ↦ none | some b ↦ some (set b c) ]

-- What the loop of flag.Parse makes of an argument: the end, an exit, a new state, or a flag whose value
-- is the next argument.
pub data Taken : Type 0 where
  stop : Taken
  leave : ℕ → Taken
  took : CommandLine → Taken
  wants : (Text → CommandLine → CommandLine) → Taken

unfoldable pub take_flag : Option Variable → Text → Option Text → CommandLine → Taken
unfolding set_bool
take_flag none name value c = if is_help name then leave 0 else leave 2
take_flag (some (of_bool set)) name value c = elim (set_bool set value c) [
  | none ↦ leave 2
  | some c' ↦ took c'
]
take_flag (some (of_text set)) name (some v) c = took (set v c)
take_flag (some (of_text set)) name none c = wants set

unfoldable pub take : Argument → CommandLine → Taken
take no_flag c = stop
take terminator c = stop
take bad_syntax c = leave 2
take (named name value) c = take_flag (look_up name flag_table) name value c

unfoldable mutual
  pub parse : List Text → CommandLine → Parsed
  parse [] c = parsed c
  parse (s ∷ args) c = elim (take (argument s) c) [
    | stop ↦ parsed c
    | leave n ↦ exit n
    | took c' ↦ parse args c'
    | wants set ↦ parse_value set args c
  ]

  pub parse_value : (Text → CommandLine → CommandLine) → List Text → CommandLine → Parsed
  parse_value set [] c = exit 2
  parse_value set (v ∷ args) c = parse args (set v c)

unfoldable pub start : (M : Machine) → Parsed → Main M M.MountServer
start M (exit n) w = (Program.exit n, w)
start M (parsed c) w =
    main M
      (record {
        container_id = c.container_id;
        mount_point = c.mount_point;
        path = c.path;
        daemonize = c.daemonize;
        print_version = c.print_version;
      })
      w

-- The program up to server.Wait, from its arguments.
unfoldable pub program : (M : Machine) → List Text → Main M M.MountServer
program M args = start M (parse args defaults)
