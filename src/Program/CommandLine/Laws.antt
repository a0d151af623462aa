-- ===== src/Program/CommandLine/Laws.antt =====
-- A command line that is written out is read as what it says.
use dockerfuse.Base.{◌≡◌, refl, ◌∙◌, ap, Bool, true, false, none, some, List, [], ◌∷◌}
use dockerfuse.Base.Text.{Text, str, text_eq}
use dockerfuse.Program.{Machine, main}
use dockerfuse.Program.CommandLine.{
  CommandLine, defaults, of_text, of_bool, set_container_id, set_mount_point, set_path,
  set_daemonize, set_debug, set_jsonlog, set_print_version, flag_table, look_up, named, argument,
  name_and_value, split_value, take, take_flag, set_bool, Taken, stop, leave, took, wants, parse,
  parse_value, Parsed, exit, parsed, start, program,
}

-- A user writes the long names of the flags, or the short ones; `debug` has one name only.
pub data Style : Type 0 where
  long short : Style

abbrev pub word : Style → Text → Text → Text
word long a b = a
word short a b = b

abbrev pub switch : Text → Bool → List Text → List Text
switch name true rest = name ∷ rest
switch name false rest = rest

-- The arguments that say what a command line holds, values as arguments of their own, from each flag on.
abbrev from_version : Style → CommandLine → List Text
from_version style c = switch (word style (str "-version") (str "-v")) c.print_version []

abbrev from_json : Style → CommandLine → List Text
from_json style c = switch (word style (str "-json") (str "-j")) c.jsonlog (from_version style c)

abbrev from_debug : Style → CommandLine → List Text
from_debug style c = switch (str "-debug") c.debug (from_json style c)

abbrev from_daemonize : Style → CommandLine → List Text
from_daemonize style c =
    switch (word style (str "-daemonize") (str "-d")) c.daemonize (from_debug style c)

abbrev from_path : Style → CommandLine → List Text
from_path style c = word style (str "-path") (str "-p") ∷ c.path ∷ from_daemonize style c

abbrev from_mount : Style → CommandLine → List Text
from_mount style c = word style (str "-mount") (str "-m") ∷ c.mount_point ∷ from_path style c

unfoldable pub as_arguments : Style → CommandLine → List Text
as_arguments style c = word style (str "-id") (str "-i") ∷ c.container_id ∷ from_mount style c

-- What flag.Parse does with an argument, by what it is taken for.
went_on :
    (rest : List Text) (c : CommandLine) (t u : Taken)
    → t ≡ u
    → elim t as (λ _. Parsed) [
      | stop ↦ parsed c
      | leave n ↦ exit n
      | took c' ↦ parse rest c'
      | wants set ↦ parse_value set rest c
    ]
      ≡ elim u as (λ _. Parsed) [
        | stop ↦ parsed c
        | leave n ↦ exit n
        | took c' ↦ parse rest c'
        | wants set ↦ parse_value set rest c
      ]
went_on rest c t u e = rw e refl

-- A flag that takes a text, and its value.
text_read :
    (name n v : Text) (set : _) (rest : List Text) (c : CommandLine)
    → argument name ≡ named n none
    → look_up n flag_table ≡ some (of_text set)
    → parse (name ∷ v ∷ rest) c ≡ parse rest (set v c)
unfolding parse take take_flag
text_read name n v set rest c e h =
    went_on (v ∷ rest) c _ _ (ap (λ a. take a c) e ∙ ap (λ o. take_flag o n none c) h)

switch_read :
    (name n : Text) (set : _) (b : Bool) (rest : List Text) (c : CommandLine)
    → argument name ≡ named n none
    → look_up n flag_table ≡ some (of_bool set)
    → set false c ≡ c
    → parse (switch name b rest) c ≡ parse rest (set b c)
unfolding parse take take_flag set_bool
switch_read name n set true rest c e h same =
    went_on rest c _ _ (ap (λ a. take a c) e ∙ ap (λ o. take_flag o n none c) h)
switch_read name n set false rest c e h same = rw same refl

-- What has been read before each flag.
abbrev read_id : CommandLine → CommandLine
read_id c = record defaults { container_id = c.container_id }

abbrev read_mount : CommandLine → CommandLine
read_mount c = record (read_id c) { mount_point = c.mount_point }

abbrev read_path : CommandLine → CommandLine
read_path c = record (read_mount c) { path = c.path }

abbrev read_daemonize : CommandLine → CommandLine
read_daemonize c = record (read_path c) { daemonize = c.daemonize }

abbrev read_debug : CommandLine → CommandLine
read_debug c = record (read_daemonize c) { debug = c.debug }

abbrev read_json : CommandLine → CommandLine
read_json c = record (read_debug c) { jsonlog = c.jsonlog }

-- The texts that a style writes name their flags.
texts_read :
    (style : Style) (c : CommandLine)
    → parse (as_arguments style c) defaults ≡ parse (from_daemonize style c) (read_path c)
unfolding as_arguments argument name_and_value split_value look_up text_eq
texts_read long c =
    text_read (str "-id") (str "id") c.container_id set_container_id (from_mount long c) defaults
      refl refl
    ∙ text_read (str "-mount") (str "mount") c.mount_point set_mount_point (from_path long c)
        (read_id c) refl refl
    ∙ text_read (str "-path") (str "path") c.path set_path (from_daemonize long c) (read_mount c)
        refl refl
texts_read short c =
    text_read (str "-i") (str "i") c.container_id set_container_id (from_mount short c) defaults
      refl refl
    ∙ text_read (str "-m") (str "m") c.mount_point set_mount_point (from_path short c) (read_id c)
        refl refl
    ∙ text_read (str "-p") (str "p") c.path set_path (from_daemonize short c) (read_mount c) refl
        refl

switches_read :
    (style : Style) (c : CommandLine) → parse (from_daemonize style c) (read_path c) ≡ parse [] c
unfolding argument name_and_value split_value look_up text_eq
switches_read long c =
    switch_read (str "-daemonize") (str "daemonize") set_daemonize c.daemonize (from_debug long c)
      (read_path c) refl refl refl
    ∙ switch_read (str "-debug") (str "debug") set_debug c.debug (from_json long c)
        (read_daemonize c) refl refl refl
    ∙ switch_read (str "-json") (str "json") set_jsonlog c.jsonlog (from_version long c)
        (read_debug c) refl refl refl
    ∙ switch_read (str "-version") (str "version") set_print_version c.print_version []
        (read_json c) refl refl refl
switches_read short c =
    switch_read (str "-d") (str "d") set_daemonize c.daemonize (from_debug short c) (read_path c)
      refl refl refl
    ∙ switch_read (str "-debug") (str "debug") set_debug c.debug (from_json short c)
        (read_daemonize c) refl refl refl
    ∙ switch_read (str "-j") (str "j") set_jsonlog c.jsonlog (from_version short c) (read_debug c)
        refl refl refl
    ∙ switch_read (str "-v") (str "v") set_print_version c.print_version [] (read_json c) refl refl
        refl

pub parse-as_arguments :
    (style : Style) (c : CommandLine) → parse (as_arguments style c) defaults ≡ parsed c
unfolding parse
parse-as_arguments style c = texts_read style c ∙ switches_read style c

-- Whatever a command line says, its values also empty or spelled like flags, the program goes on
-- with exactly that if it is written out with the long names of the flags, or with the short ones,
-- and with each value as an argument of its own.
pub program-as_arguments :
    (M : Machine) (style : Style) (c : CommandLine) (w : M.World)
    → program M (as_arguments style c) w
      ≡ main M
          (record {
            container_id = c.container_id;
            mount_point = c.mount_point;
            path = c.path;
            daemonize = c.daemonize;
            print_version = c.print_version;
          })
          w
unfolding program start
program-as_arguments M style c w = ap (λ p. start M p w) (parse-as_arguments style c)
