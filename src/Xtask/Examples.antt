-- ===== src/Xtask/Examples.antt =====
-- The theorems on the tasks, for options with an example and a runner of two words.
use ptraf.Shared.{◌≡◌, refl, true, none, some, [], ◌∷◌}
use ptraf.Shared.Texts.{codes}
use ptraf.Xtask.{bpf_el, Status, Options, ebpf_command, build_command, words, run}
use ptraf.Xtask.Building.{Runs, run-Runs}

abbrev options : Options
options = record {
  bpf_target = bpf_el;
  release = true;
  runner = codes "  sudo -E ";
  example = none;
  run_args = codes "-h" ∷ [];
}

-- Every command succeeds.
abbrev succeeding : Status
succeeding c = some true

four_words :
    words options ≡ codes "sudo" ∷ codes "-E" ∷ codes "target/release/ptraf" ∷ codes "-h" ∷ []
unfolding words
four_words = refl

run-Runs_example :
    Runs succeeding
      (ebpf_command (record { target = bpf_el; release = true }))
      (build_command options)
      (words options)
      (run succeeding options)
run-Runs_example = run-Runs succeeding options
