-- ===== src/Ui/SocketTableView/Cells/Names.antt =====
-- ptraf/src/ui/socktable.rs and ptraf/src/ui/process_details.rs: the name of a process.
use ptraf.Shared.{ℕ, ◌≡◌, refl, Option, none, some, [], option_map, unwrap_or, and_then, back}
use ptraf.Ui.ProcessDetails.{Procfs, as_i32, empty, from_procfs, from_procfs_pid, new}
use ptraf.Ui.SocketTableView.Cells.{pid_name}

module _ (os : Procfs) (pid : ℕ) where
  -- The table and the view of a process give the process the same name, and the table leaves it
  -- out exactly where the view has none.
  pid_name-new : pid_name os pid ≡ unwrap_or (new os pid).name []
  unfolding pid_name new from_procfs_pid from_procfs
  pid_name-new = go (os.new (as_i32 pid))
    where
      go :
          (o : Option os.Process)
          → unwrap_or
              (and_then (and_then (and_then o os.exe) (λ e. back (os.components e))) (λ name. name))
              []
            ≡ unwrap_or (unwrap_or (option_map (from_procfs os) o) (empty (as_i32 pid))).name []
      go none = refl
      go (some p) = refl
