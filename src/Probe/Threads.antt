-- ===== src/Probe/Threads.antt =====
-- ptraf-ebpf/src/ptraf-ebpf.rs: the entry and the return probe of a thread among those of others.
pub mod Steps
use ptraf.Shared.{
  ℕ, ◌≡◌, refl, sym, ap, ◌∙◌, true, false, Option, none, some, subst, List, [], ◌∷◌, ◌++◌, ◌==◌,
  if◌then◌else◌, All, if_cases, Option-cases, inl, inr, arith,
}
use ptraf.Shared.Int.{ℤ}
use ptraf.Shared.Results.{Result, ok, err, Result-cases}
use ptraf.Common.Types.{Channel, BpfIpAddr}
use ptraf.Probe.{
  SockCommon, Kernel, Context, CacheMap, Probe, is_inet, addresses, event_of, notification, notify,
  inserted, try_msg, take_entry, report, inet_sock_set_state, value,
}
use ptraf.Probe.Threads.Steps.{
  Call, entered, took, reported, state_set, thread, InsertsNothing, eq_refl, step, run, Readable,
  notify-cache, report-cache, get-run, try_msg_caches,
}

module _ (c : CacheMap) (kernel : Kernel) where
  -- A slot that is read once its entry has been removed.
  report_found :
      (p : Probe c) (ctx : Context) (channel : Channel) (val : ℤ) (slot : c.Slot)
      {common : SockCommon} {sk_type : ℕ} {addrs : BpfIpAddr × BpfIpAddr}
      → ctx.ret ≡ some val
      → Readable c kernel (c.deref p.cache slot) common sk_type addrs
      → report c kernel p ctx channel (some slot) ≡ (
        record p { events = p.events ++ event_of ctx common sk_type val channel addrs ∷ [] },
        ok 0,
      )
  unfolding report notify notification
  report_found p ctx channel val slot has_ret r =
      rw (has_ret, r.sk_read, r.common_read, r.type_read, r.addressed) refl

  deref-take_entry :
      (p : Probe c) (ctx : Context) (s : c.Slot)
      → c.deref (take_entry c kernel p ctx).0.cache s ≡ c.deref p.cache s
  unfolding take_entry
  deref-take_entry p ctx s = elim (Option-cases (c.get p.cache ctx.pid_tgid)) [
    | inl none' ↦ rw (none', take_entry) refl
    | inr (slot, some') ↦ rw (some', take_entry) (c.deref-remove p.cache ctx.pid_tgid s)
  ]

  -- A slot keeps its contents while nothing is inserted.
  deref-step :
      (p : Probe c) (call : Call c) (s : c.Slot)
      → InsertsNothing call
      → c.deref (step c kernel p call).cache s ≡ c.deref p.cache s
  unfolding step inet_sock_set_state
  deref-step p (entered ctx) s h = absurd h
  deref-step p (took ctx) s h = deref-take_entry p ctx s
  deref-step p (reported channel ctx entry) s h =
      ap (λ m. c.deref m s) (report-cache c kernel p ctx channel entry)
  deref-step p (state_set ctx sk family) s h =
      if_cases (λ (r : Probe c × ℕ). c.deref r.0.cache s ≡ c.deref p.cache s) (is_inet family)
        (λ _. ap (λ m. c.deref m s) (notify-cache c kernel p ctx sk _ _)) (λ _. refl)

  deref-run :
      (p : Probe c) (calls : List (Call c)) (s : c.Slot)
      → All InsertsNothing calls
      → c.deref (run c kernel p calls).cache s ≡ c.deref p.cache s
  unfolding run
  deref-run p [] s h = refl
  deref-run p (call ∷ calls) s h =
      deref-run (step c kernel p call) calls s h.1 ∙ deref-step p call s h.0

  -- What a return probe takes out of the cache.
  take_entry_found :
      (p : Probe c) (ctx : Context) (socket : ℕ)
      → value c p.cache ctx.pid_tgid ≡ some socket
      → (slot : c.Slot) × (c.deref p.cache slot ≡ socket)
        × (take_entry c kernel p ctx
            ≡ (record p { cache = c.remove p.cache ctx.pid_tgid }, some slot))
  unfolding take_entry
  take_entry_found p ctx socket h = elim (Option-cases (c.get p.cache ctx.pid_tgid)) [
    | inl none' ↦ let f = rw none' at h in absurd cc
    | inr (slot, some') ↦ (slot, (let f = rw some' at h in cc), rw (some', take_entry) refl)
  ]

  -- A thread's entry probe succeeds on a readable socket of an internet family, other threads make
  -- any steps, and its return probe takes the entry of the thread. Then other threads make steps that
  -- insert nothing before the return probe goes on with a value: what it sends is the event of that
  -- socket with that value, and the cache then holds no entry of the thread.
  pub report-run-try_msg :
      (p : Probe c) (enter ctx : Context) (calls between : List (Call c)) (channel : Channel)
      (val : ℤ) (socket : ℕ) {common : SockCommon} {sk_type : ℕ} {addrs : BpfIpAddr × BpfIpAddr}
      → enter.arg ≡ some socket
      → Readable c kernel socket common sk_type addrs
      → (try_msg c kernel p enter).1 ≡ ok 0
      → All (λ call. (thread call == enter.pid_tgid) ≡ false) calls
      → All (λ call. (thread call == enter.pid_tgid) ≡ false) between
      → All InsertsNothing between
      → ctx.pid_tgid ≡ enter.pid_tgid
      → ctx.ret ≡ some val
      → (let taken = take_entry c kernel (run c kernel (try_msg c kernel p enter).0 calls) ctx in
          let before = run c kernel taken.0 between in
          let after = report c kernel before ctx channel taken.1 in
          (after.1 ≡ ok 0)
          × (after.0.events ≡ before.events ++ event_of ctx common sk_type val channel addrs ∷ [])
          × (value c after.0.cache enter.pid_tgid ≡ none))
  report-run-try_msg p enter ctx calls between channel val socket {common} {sk_type} {addrs} has_arg
        r entry others others' nothing same has_ret =
      subst
        (λ (t : Probe c × Option c.Slot).
          let before = run c kernel t.0 between in
          let after = report c kernel before ctx channel t.1 in
          (after.1 ≡ ok 0)
          × (after.0.events ≡ before.events ++ event_of ctx common sk_type val channel addrs ∷ [])
          × (value c after.0.cache enter.pid_tgid ≡ none))
        (sym (take_entry_found middle ctx socket found).2)
        (
          ap (λ x. x.1) sends,
          ap (λ x. x.0.events) sends,
          ap (λ (x : Probe c × Result ℕ ℤ). value c x.0.cache enter.pid_tgid) sends
              ∙ get-run c kernel removed between enter.pid_tgid others'
              ∙ c.get-remove middle.cache ctx.pid_tgid enter.pid_tgid
              ∙ ap (λ b. if b then none else value c middle.cache enter.pid_tgid)
                  (ap (λ k. k == enter.pid_tgid) same ∙ eq_refl enter.pid_tgid),
        )
    where
      middle : Probe c
      middle = run c kernel (try_msg c kernel p enter).0 calls

      found : value c middle.cache ctx.pid_tgid ≡ some socket
      found =
          ap (value c middle.cache) same
          ∙ get-run c kernel (try_msg c kernel p enter).0 calls enter.pid_tgid others
          ∙ try_msg_caches c kernel p enter socket has_arg r entry

      removed : Probe c
      removed = record middle { cache = c.remove middle.cache ctx.pid_tgid }

      slot : c.Slot
      slot = (take_entry_found middle ctx socket found).0

      before : Probe c
      before = run c kernel removed between

      kept : c.deref before.cache slot ≡ socket
      kept =
          deref-run removed between slot nothing
          ∙ c.deref-remove middle.cache ctx.pid_tgid slot
          ∙ (take_entry_found middle ctx socket found).1

      sends : report c kernel before ctx channel (some slot) ≡ (
        record before {
          events = before.events ++ event_of ctx common sk_type val channel addrs ∷ [];
        },
        ok 0,
      )
      sends =
          report_found before ctx channel val slot has_ret
            (subst (λ x. Readable c kernel x common sk_type addrs) (sym kept) r)
