-- ===== src/Loading/Steps.antt =====
-- ptraf/src/probe.rs: when `ProbeProgram::load` succeeds.
use ptraf.Shared.{◌≡◌, ◌≢◌, refl, sym, ap, ◌∙◌, ◌↔◌, inl, inr, some, Option-cases, List, [], ◌∷◌}
use ptraf.Loading.{
  Op, Answer, done, failed, missing, Aya, loaded, error, panicked, kprobes, perform_all,
  run_inet_sock_set_state, after_tracepoint, after_kprobes, after_load, load,
}

module _ (aya : Aya) where
  -- Every operation is done, one after the other.
  abbrev pub AllDone : aya.Bpf → List Op → aya.Bpf → Type 0
  AllDone b [] c = b ≡ c
  AllDone b (o ∷ os) c = (b' : aya.Bpf) × (aya.perform b o ≡ (b', done)) × AllDone b' os c

  loaded_injective : (b c : aya.Bpf) → loaded b ≡ loaded c → b ≡ c
  loaded_injective b c h = ap (λ r. elim r [ loaded x ↦ x | error ↦ b | panicked ↦ b ]) h

  from_done : (os : List Op) (b c : aya.Bpf) → AllDone b os c → perform_all aya b os ≡ (c, done)
  unfolding perform_all
  from_done [] b c h = ap (λ x. (x, done)) h
  from_done (o ∷ os) b c (b', h, k) =
      ap
        (λ r. elim r.1 as (λ _. aya.Bpf × Answer) [
          | done ↦ perform_all aya r.0 os
          | failed ↦ (r.0, failed)
          | missing ↦ (r.0, missing)
        ])
        h
      ∙ from_done os b' c k

  to_done : (os : List Op) (b c : aya.Bpf) → perform_all aya b os ≡ (c, done) → AllDone b os c
  unfolding perform_all
  to_done [] b c h = ap (λ x. x.0) h
  to_done (o ∷ os) b c h =
      let b' = (aya.perform b o).0 in step b' (aya.perform b o).1 refl (to_done os b' c) h
    where
      step :
          (b' : aya.Bpf) (a : Answer)
          → aya.perform b o ≡ (b', a)
          → (perform_all aya b' os ≡ (c, done) → AllDone b' os c)
          → (elim a as (λ _. aya.Bpf × Answer) [
            | done ↦ perform_all aya b' os
            | failed ↦ (b', failed)
            | missing ↦ (b', missing)
          ])
            ≡ (c, done)
          → AllDone b (o ∷ os) c
      step b' done e rest h = (b', e, rest h)
      step b' failed e rest h = absurd (let x : failed ≡ done = ap (λ x. x.1) h in cc)
      step b' missing e rest h = absurd (let x : missing ≡ done = ap (λ x. x.1) h in cc)

  traced_iff :
      (r : aya.Bpf × Answer) (c : aya.Bpf)
      → (after_tracepoint aya r ≡ loaded c) ↔ ((r.0 ≡ c) × (r.1 ≢ missing))
  traced_iff (b, done) c = (λ h. (loaded_injective b c h, λ e. cc), λ h. ap loaded h.0)
  traced_iff (b, failed) c = (λ h. (loaded_injective b c h, λ e. cc), λ h. ap loaded h.0)
  traced_iff (b, missing) c = (λ h. absurd (let x = h in cc), λ h. absurd (h.1 refl))

  -- What has been done when loading has succeeded.
  abbrev pub Done : aya.Bpf → aya.Bpf → Type 0
  Done b c =
      (b' : aya.Bpf) × AllDone b kprobes b'
      × ((run_inet_sock_set_state aya b').0 ≡ c)
      × ((run_inet_sock_set_state aya b').1 ≢ missing)

  kprobes-Done :
      (b c : aya.Bpf) (r : aya.Bpf × Answer)
      → perform_all aya b kprobes ≡ r
      → after_kprobes aya r ≡ loaded c
      → Done b c
  unfolding after_kprobes run_inet_sock_set_state
  kprobes-Done b c (b', done) e h =
      let k = (traced_iff (run_inet_sock_set_state aya b') c).0 h in
      (b', to_done kprobes b b' e, k.0, k.1)
  kprobes-Done b c (b', failed) e h = absurd (let x = h in cc)
  kprobes-Done b c (b', missing) e h = absurd (let x = h in cc)

  -- Loading succeeds exactly if the object of the programs can be loaded and each of the operations
  -- on the three kernel probes is done, in their order, and the program of the tracepoint is there.
  -- It does not depend on the logger's answer, nor on whether the tracepoint can be loaded and
  -- attached.
  pub load_iff :
      (c : aya.Bpf)
      → (load aya ≡ loaded c) ↔ ((b : aya.Bpf) × (aya.load ≡ some b) × Done (aya.init_logger b).0 c)
  unfolding load after_load after_kprobes
  load_iff c = (
    λ h. elim (Option-cases aya.load) [
      | inl none' ↦ absurd (let x : error ≡ loaded c = sym (ap (after_load aya) none') ∙ h in cc)
      | inr (b, some') ↦
          let b0 = (aya.init_logger b).0 in
          (
            b,
            some',
            kprobes-Done b0 c (perform_all aya b0 kprobes) refl
                (sym (ap (after_load aya) some') ∙ h),
          )
    ],
    λ h.
        let (b, some', all_done) = h in
        let (b', all, is, there) = all_done in
        ap (after_load aya) some'
        ∙ ap (after_kprobes aya) (from_done kprobes (aya.init_logger b).0 b' all)
        ∙ (traced_iff (run_inet_sock_set_state aya b') c).1 (is, there),
  )
