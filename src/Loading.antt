-- ===== src/Loading.antt =====
-- ptraf/src/probe.rs, `ProbeProgram::load`: the programs of the kernel are found, loaded and
-- attached. The aya crate is a parameter: it performs an operation on the loaded object and answers.
pub mod Steps
mod Examples
use ptraf.Shared.{ℕ, Bool, Option, none, some, List, [], ◌∷◌, ◌++◌}
use ptraf.Shared.Texts.{Text, codes}

-- An operation on the loaded object: a program is taken by its name, loaded, and attached to a
-- function, at offset 0, or to a tracepoint.
pub data Op : Type 0 where
  take : Text → Op
  load_program : Text → Op
  attach_kprobe : Text → Text → Op
  attach_tracepoint : Text → Text → Text → Op

-- `missing` is a program that is not there, whose `unwrap` panics.
pub data Answer : Type 0 where
  done failed missing : Answer

pub record Aya : Type 1 where
  pub Bpf : Type 0
  pub load : Option Bpf
  pub init_logger : Bpf → Bpf × Bool
  pub perform : Bpf → Op → Bpf × Answer

-- `Ok`, `Err` or a panic.
pub data Loaded (B : Type 0) : Type 0 where
  loaded : B → Loaded B
  error : Loaded B
  panicked : Loaded B

abbrev pub kprobes : List Op
kprobes =
    take (codes "msg")
    ∷ load_program (codes "msg")
    ∷ attach_kprobe (codes "msg") (codes "sock_sendmsg")
    ∷ attach_kprobe (codes "msg") (codes "sock_recvmsg")
    ∷ take (codes "sendmsg_ret")
    ∷ load_program (codes "sendmsg_ret")
    ∷ attach_kprobe (codes "sendmsg_ret") (codes "sock_sendmsg")
    ∷ take (codes "recvmsg_ret")
    ∷ load_program (codes "recvmsg_ret")
    ∷ attach_kprobe (codes "recvmsg_ret") (codes "sock_recvmsg")
    ∷ []

abbrev pub tracepoint : List Op
tracepoint =
    take (codes "sock_set_state")
    ∷ load_program (codes "sock_set_state")
    ∷ attach_tracepoint (codes "sock_set_state") (codes "sock") (codes "inet_sock_set_state")
    ∷ []

module _ (aya : Aya) where
  -- Operations in turn, up to the first one that is not done, as `?` makes them.
  unfoldable pub perform_all : aya.Bpf → List Op → aya.Bpf × Answer
  perform_all bpf [] = (bpf, done)
  perform_all bpf (o ∷ os) =
      let (after, answer) = aya.perform bpf o in
      elim answer [
        | done ↦ perform_all after os
        | failed ↦ (after, failed)
        | missing ↦ (after, missing)
      ]

  unfoldable pub run_inet_sock_set_state : aya.Bpf → aya.Bpf × Answer
  unfolding perform_all
  run_inet_sock_set_state bpf = perform_all bpf tracepoint

  -- An error of the tracepoint is only a warning.
  abbrev pub after_tracepoint : aya.Bpf × Answer → Loaded aya.Bpf
  after_tracepoint (bpf, done) = loaded bpf
  after_tracepoint (bpf, failed) = loaded bpf
  after_tracepoint (bpf, missing) = panicked

  unfoldable pub after_kprobes : aya.Bpf × Answer → Loaded aya.Bpf
  unfolding run_inet_sock_set_state
  after_kprobes (bpf, done) = after_tracepoint (run_inet_sock_set_state bpf)
  after_kprobes (bpf, failed) = error
  after_kprobes (bpf, missing) = panicked

  -- An error of the logger is only a warning, too.
  unfoldable pub after_load : Option aya.Bpf → Loaded aya.Bpf
  unfolding perform_all after_kprobes
  after_load none = error
  after_load (some bpf) = after_kprobes (perform_all (aya.init_logger bpf).0 kprobes)

  unfoldable pub load : Loaded aya.Bpf
  unfolding after_load
  load = after_load aya.load
