-- ===== src/Ui/ProcessDetails/Examples.antt =====
-- The theorem on the view of a process, for a process with two sockets.
use ptraf.Shared.{◌≡◌, refl, true, false, none, some, [], ◌∷◌}
use ptraf.Shared.Int.{pos}
use ptraf.Shared.Texts.{codes}
use ptraf.Ui.ProcessDetails.{socket, other, Procfs, new, established_tcp, established_udp}
use ptraf.Ui.ProcessDetails.Counting.{counted, established_lem}

-- One process, whose third file and whose table of TCP connections over IPv6 cannot be read.
abbrev one_process : Procfs
one_process = record {
  Process = Unit {0};
  ExePath = Unit {0};
  new = λ pid. some tt;
  pid = λ p. pos 7;
  fd = λ p. some (some (socket 11) ∷ some other ∷ none ∷ some (socket 12) ∷ []);
  tcp = λ p. some (
      record { established = true; inode = 11 }
      ∷ record { established = false; inode = 12 }
      ∷ record { established = true; inode = 99 }
      ∷ []);
  tcp6 = λ p. none;
  udp = λ p. some [];
  udp6 = λ p. some (record { established = true; inode = 12 } ∷ []);
  exe = λ p. some tt;
  to_str = λ e. some (codes "/bin/cat");
  components = λ e. some (codes "/") ∷ some (codes "bin") ∷ some (codes "cat") ∷ [];
}

details :
    new one_process 7
    ≡ record { pid = pos 7; name = some (codes "cat"); exe = some (codes "/bin/cat") }
unfolding new
details = refl

one_of_three : established_tcp one_process (new one_process 7) ≡ 1
unfolding established_tcp new
one_of_three = refl

established_lem_example :
    (established_tcp one_process (new one_process 7)
      ≡ counted one_process one_process.tcp one_process.tcp6
          (one_process.new (new one_process 7).pid))
    × (established_udp one_process (new one_process 7)
        ≡ counted one_process one_process.udp one_process.udp6
            (one_process.new (new one_process 7).pid))
established_lem_example = established_lem one_process (new one_process 7)
