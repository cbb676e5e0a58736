-- ===== src/Xtask.antt =====
-- xtask/src: the tasks that build and run the program. A command is run by a parameter, which says
-- whether it could be started and, if so, whether it succeeded; the clap crate reads the options.
pub mod Building
mod Examples
use ptraf.Shared.{
  ℕ, Bool, true, false, Option, some, none, List, [], ◌∷◌, ◌++◌, if◌then◌else◌, ◌==◌, leb, ◌&&◌,
  ◌||◌, drop_while,
}
use ptraf.Shared.Results.{Result, ok, err}
use ptraf.Shared.Texts.{Text, codes}

-- `Architecture` of build_ebpf.rs, read from a text and written to one.
pub data Architecture : Type 0 where
  bpf_el bpf_eb : Architecture

abbrev pub text_eq : Text → Text → Bool
text_eq [] [] = true
text_eq [] (y ∷ t) = false
text_eq (x ∷ s) [] = false
text_eq (x ∷ s) (y ∷ t) = let rest = text_eq s t in if x == y then rest else false

unfoldable pub from_str : Text → Result Architecture Text
from_str s =
    if text_eq s (codes "bpfel-unknown-none")
    then ok bpf_el
    else if text_eq s (codes "bpfeb-unknown-none")
    then ok bpf_eb
    else err (codes "invalid target")

abbrev pub display : Architecture → Text
display bpf_el = codes "bpfel-unknown-none"
display bpf_eb = codes "bpfeb-unknown-none"

-- A command line and how it is started: in a folder, without the toolchain of the caller.
pub record Command : Type 0 where
  pub program : Text
  pub args : List Text
  pub dir : Option Text
  pub removes_toolchain : Bool

-- How a task ends, with the commands that it has run, first to last: a failed build panics, a failed
-- run is an error.
pub data Ending : Type 0 where
  done panicked failed : Ending

abbrev pub Run : Type 0
Run = List Command × Ending

-- `None` if the command could not be started, and otherwise whether it succeeded.
abbrev pub Status : Type 0
Status = Command → Option Bool

-- A second task after a first one, unless that one has not come to its end.
infixr 5 ◌and_then◌
abbrev pub ◌and_then◌ : Run → Run → Run
(cs, done) and_then (ds, end) = (cs ++ ds, end)
(cs, end) and_then r = (cs, end)

-- A command that must be started and succeed.
abbrev pub must : Option Bool → Ending
must (some true) = done
must _ = panicked

abbrev pub flag : Bool → Text → List Text
flag true t = t ∷ []
flag false t = []

pub record BuildOptions : Type 0 where
  pub target : Architecture
  pub release : Bool

abbrev pub ebpf_command : BuildOptions → Command
ebpf_command opts = record {
  program = codes "cargo";
  args =
      codes "build"
      ∷ codes "--verbose"
      ∷ (codes "--target=" ++ display opts.target)
      ∷ codes "-Z"
      ∷ codes "build-std=core"
      ∷ flag opts.release (codes "--release");
  dir = some (codes "ptraf-ebpf");
  removes_toolchain = true;
}

unfoldable pub build_ebpf : Status → BuildOptions → Run
build_ebpf status opts = (ebpf_command opts ∷ [], must (status (ebpf_command opts)))

-- `Options` of run.rs.
pub record Options : Type 0 where
  pub bpf_target : Architecture
  pub release : Bool
  pub runner : Text
  pub example : Option Text
  pub run_args : List Text

abbrev example_args : Option Text → List Text
example_args none = []
example_args (some e) = codes "--example" ∷ e ∷ []

abbrev pub build_command : Options → Command
build_command opts = record {
  program = codes "cargo";
  args = codes "build" ∷ (flag opts.release (codes "--release") ++ example_args opts.example);
  dir = none;
  removes_toolchain = false;
}

unfoldable pub build : Status → Options → Run
build status opts = (build_command opts ∷ [], must (status (build_command opts)))

abbrev profile : Bool → Text
profile release = if release then codes "release" else codes "debug"

abbrev pub bin_path : Options → Text
bin_path opts = elim opts.example [
  | some e ↦ codes "target/" ++ profile opts.release ++ codes "/examples/" ++ e
  | none ↦ codes "target/" ++ profile opts.release ++ codes "/ptraf"
]

-- `str::trim` and `str::split_terminator(' ')`: white space is what Unicode calls so, and no empty
-- piece follows the last space.
is_white : ℕ → Bool
is_white c =
    (leb 9 c && leb c 13)
    || c == 32
    || c == 133
    || c == 160
    || c == 5760
    || (leb 8192 c && leb c 8202)
    || c == 8232
    || c == 8233
    || c == 8239
    || c == 8287
    || c == 12288

-- The same without the white space at the end.
trim_end : Text → Text
unfolding is_white
trim_end [] = []
trim_end (c ∷ s) = with_end c (trim_end s)
  where
    with_end : ℕ → Text → Text
    with_end c [] = if is_white c then [] else c ∷ []
    with_end c (d ∷ s) = c ∷ d ∷ s

unfoldable pub trim : Text → Text
unfolding is_white trim_end
trim s = drop_while is_white (trim_end s)

abbrev first_piece : ℕ → List Text → List Text
first_piece c [] = (c ∷ []) ∷ []
first_piece c (w ∷ ws) = (c ∷ w) ∷ ws

unfoldable pub split : Text → List Text
split [] = [] ∷ []
split (c ∷ s) = let rest = split s in if c == b' ' then [] ∷ rest else first_piece c rest

abbrev pub without_last_empty : List Text → List Text
without_last_empty [] = []
without_last_empty ([] ∷ []) = []
without_last_empty (w ∷ ws) = w ∷ without_last_empty ws

unfoldable pub split_terminator : Text → List Text
unfolding split
split_terminator s = without_last_empty (split s)

-- The words of the command that runs the application; the path of the application is one of them.
unfoldable pub words : Options → List Text
unfolding trim split_terminator
words opts = split_terminator (trim opts.runner) ++ bin_path opts ∷ opts.run_args

-- The command of the words, of which there must be one.
abbrev pub command_of : List Text → Option Command
command_of [] = none
command_of (w ∷ ws) =
    some (record { program = w; args = ws; dir = none; removes_toolchain = false })

-- How the application ends: it panics if it cannot be started.
abbrev pub application_end : Option Bool → Ending
application_end (some true) = done
application_end (some false) = failed
application_end none = panicked

abbrev pub start : Status → Option Command → Run
start status none = ([], panicked)
start status (some c) = (c ∷ [], application_end (status c))

unfoldable pub run : Status → Options → Run
unfolding build_ebpf build words
run status opts =
    build_ebpf status (record { target = opts.bpf_target; release = opts.release })
    and_then build status opts
    and_then start status (command_of (words opts))

-- The command line of xtask; `generate` runs the tool that writes the bindings.
pub data Task : Type 0 where
  build_ebpf_task : BuildOptions → Task
  run_task : Options → Task
  codegen : Task

unfoldable pub main : Status → Run → Task → Run
unfolding build_ebpf run
main status generate (build_ebpf_task opts) = build_ebpf status opts
main status generate (run_task opts) = run status opts
main status generate codegen = generate
