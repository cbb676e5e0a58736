-- ===== src/Xtask/Building.antt =====
-- xtask/src/build_ebpf.rs and xtask/src/run.rs.
use ptraf.Shared.{
  ◌≡◌, refl, ap, ◌∙◌, ◌↔◌, ◌⊎◌, inl, inr, Bool, true, false, Option, some, none, List, [], ◌∷◌,
  ◌++◌, if◌then◌else◌, unwrap_or, ◌≢◌, arith,
}
use ptraf.Shared.Results.{Result, ok, err}
use ptraf.Shared.Texts.{Text, codes}
use ptraf.Xtask.{
  Architecture, bpf_el, bpf_eb, text_eq, from_str, display, Command, done, panicked, Run, Status,
  ebpf_command, build_ebpf, Options, build_command, build, words, command_of, run, application_end,
  must, start, ◌and_then◌, split_terminator, trim, bin_path,
}

text_eq_iff : (s t : Text) → (text_eq s t ≡ true) ↔ (s ≡ t)
text_eq_iff [] [] = (λ h. refl, λ h. refl)
text_eq_iff [] (y ∷ t) = (λ h. cc, λ h. cc)
text_eq_iff (x ∷ s) [] = (λ h. cc, λ h. cc)
text_eq_iff (x ∷ s) (y ∷ t) = ground (arith, text_eq_iff s t)

ok_as :
    (s : Text) (a b : Architecture)
    → s ≡ display b
    → ◌≡◌ {A = Result Architecture Text} (ok b) (ok a)
    → s ≡ display a
ok_as s a b h e = h ∙ ap (λ r. elim r [ ok x ↦ display x | err y ↦ [] ]) e

read_as :
    (s : Text) (a : Architecture) (b c : Bool)
    → text_eq s (codes "bpfel-unknown-none") ≡ b
    → text_eq s (codes "bpfeb-unknown-none") ≡ c
    → (if b then ok bpf_el else if c then ok bpf_eb else err (codes "invalid target")) ≡ ok a
    → s ≡ display a
read_as s a true c h k e = ok_as s a bpf_el ((text_eq_iff s (codes "bpfel-unknown-none")).0 h) e
read_as s a false true h k e = ok_as s a bpf_eb ((text_eq_iff s (codes "bpfeb-unknown-none")).0 k) e
read_as s a false false h k e = absurd cc

display_read : (a : Architecture) → from_str (display a) ≡ ok a
unfolding from_str
display_read bpf_el = refl
display_read bpf_eb = refl

-- A text is read as an architecture exactly if it is the text that the architecture is written as;
-- any other text is refused.
pub from_str_iff : (s : Text) (a : Architecture) → (from_str s ≡ ok a) ↔ (s ≡ display a)
unfolding from_str
from_str_iff s a = (
  read_as s a (text_eq s (codes "bpfel-unknown-none")) (text_eq s (codes "bpfeb-unknown-none")) refl
      refl,
  λ h. ap from_str h ∙ display_read a,
)

-- The path of the application is among the words.
a_word : (opts : Options) → (c : Command) × (command_of (words opts) ≡ some c)
unfolding words
a_word opts = some_word (split_terminator (trim opts.runner)) (bin_path opts) opts.run_args
  where
    some_word :
        (ws : List Text) (w : Text) (vs : List Text)
        → (c : Command) × (command_of (ws ++ w ∷ vs) ≡ some c)
    some_word [] w vs = (_, refl)
    some_word (v ∷ ws) w vs = (_, refl)

-- What a run comes to, for each way in which its three commands end, the last one given by words.
abbrev pub Runs : Status → Command → Command → List Text → Run → Type 0
Runs status ebpf user ws r =
    ((status ebpf ≢ some true) × (r ≡ (ebpf ∷ [], panicked)))
    ⊎ (((status ebpf ≡ some true) × (status user ≢ some true) × (r ≡ (ebpf ∷ user ∷ [], panicked)))
        ⊎ ((status ebpf ≡ some true)
            × (status user ≡ some true)
            × (c : Command) × (command_of ws ≡ some c)
            × (r ≡ (ebpf ∷ user ∷ c ∷ [], application_end (status c)))))

Status-cases : (o : Option Bool) → (o ≡ some true) ⊎ ((o ≢ some true) × (must o ≡ panicked))
Status-cases none = inr (λ e. cc, refl)
Status-cases (some true) = inl refl
Status-cases (some false) =
    inr (λ e. let f : false ≡ true = ap (λ o. unwrap_or o true) e in cc, refl)

three-Runs :
    (status : Status) (ebpf user : Command) (ws : List Text) (c : Command)
    → command_of ws ≡ some c
    → Runs status ebpf user ws (
        (ebpf ∷ [], must (status ebpf))
        and_then (user ∷ [], must (status user))
        and_then start status (command_of ws))
three-Runs status ebpf user ws c h = elim (Status-cases (status ebpf)) [
  | inr (bad, stop) ↦ inl (
    bad,
    ap
        (λ x.
          (ebpf ∷ [], x)
          and_then (user ∷ [], must (status user))
          and_then start status (command_of ws))
        stop,
  )
  | inl good ↦ elim (Status-cases (status user)) [
    | inr (bad, stop) ↦ inr (
        inl (
          good,
          bad,
          ap
                (λ x.
                  (ebpf ∷ [], must x)
                  and_then (user ∷ [], must (status user))
                  and_then start status (command_of ws))
                good
              ∙ ap
                  (λ x.
                    (ebpf ∷ [], done) and_then (user ∷ [], x) and_then start status (command_of ws))
                  stop,
        ))
    | inl built ↦ inr (
        inr (
          good,
          built,
          c,
          h,
          ap
                (λ x.
                  (ebpf ∷ [], must x)
                  and_then (user ∷ [], must (status user))
                  and_then start status (command_of ws))
                good
              ∙ ap
                  (λ x.
                    (ebpf ∷ [], done)
                    and_then (user ∷ [], must x)
                    and_then start status (command_of ws))
                  built
              ∙ ap (λ x. (ebpf ∷ [], done) and_then (user ∷ [], done) and_then start status x) h,
        ))
  ]
]

-- The program of the kernel is built first, then the application, and the application is started
-- only when both builds have succeeded. A build that fails or cannot be started is the last command
-- and panics. There is always an application to start, and the run ends as it does.
pub run-Runs :
    (status : Status) (opts : Options)
    → Runs status
        (ebpf_command (record { target = opts.bpf_target; release = opts.release }))
        (build_command opts)
        (words opts)
        (run status opts)
unfolding run build_ebpf build
run-Runs status opts =
    let (c, h) = a_word opts in
    three-Runs status (ebpf_command (record { target = opts.bpf_target; release = opts.release }))
      (build_command opts) (words opts) c h
