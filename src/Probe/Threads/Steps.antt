-- ===== src/Probe/Threads/Steps.antt =====
-- ptraf-ebpf/src/ptraf-ebpf.rs: the steps of the probes on several threads, and what they do to the
-- entries of the cache.
use ptraf.Shared.{
  ℕ, ◌≡◌, refl, ap, ◌∙◌, true, false, Option, none, some, List, [], ◌∷◌, ◌==◌, if◌then◌else◌, All,
  if_cases, Option-cases, inl, inr, arith,
}
use ptraf.Shared.Int.{ℤ}
use ptraf.Shared.Results.{Result, ok, err, Result-cases}
use ptraf.Common.Types.{Channel, BpfIpAddr}
use ptraf.Probe.{
  SockCommon, Kernel, Context, CacheMap, Probe, is_inet, addresses, notify, inserted, try_msg,
  take_entry, report, inet_sock_set_state, value,
}

-- A step of one of the probes, on some thread. A return probe makes two.
pub data Call (c : CacheMap) : Type 0 where
  entered : Context → Call c
  took : Context → Call c
  reported : Channel → Context → Option c.Slot → Call c
  state_set : Context → ℕ → ℕ → Call c

abbrev pub thread : {c : CacheMap} → Call c → ℕ
thread (entered ctx) = ctx.pid_tgid
thread (took ctx) = ctx.pid_tgid
thread (reported channel ctx entry) = ctx.pid_tgid
thread (state_set ctx sk family) = ctx.pid_tgid

-- A step that inserts nothing.
abbrev pub InsertsNothing : {c : CacheMap} → Call c → Type 0
InsertsNothing (entered ctx) = ⊥
InsertsNothing _ = Unit {0}

pub eq_refl : (k : ℕ) → (k == k) ≡ true
eq_refl k = ground arith

module _ (c : CacheMap) (kernel : Kernel) where
  unfoldable pub step : Probe c → Call c → Probe c
  step p (entered ctx) = (try_msg c kernel p ctx).0
  step p (took ctx) = (take_entry c kernel p ctx).0
  step p (reported channel ctx entry) = (report c kernel p ctx channel entry).0
  step p (state_set ctx sk family) = (inet_sock_set_state c kernel p ctx sk family).0

  unfoldable pub run : Probe c → List (Call c) → Probe c
  unfolding step
  run p [] = p
  run p (call ∷ calls) = run (step p call) calls

  -- A socket that the kernel lets the probes read, of an internet family.
  pub record Readable (socket : ℕ) (common : SockCommon) (sk_type : ℕ)
      (addrs : BpfIpAddr × BpfIpAddr) : Type 0 where
    pub sk : ℕ
    pub sk_read : kernel.read_sk socket ≡ ok sk
    pub common_read : kernel.read_common sk ≡ ok common
    pub type_read : kernel.read_type sk ≡ ok sk_type
    pub addressed : addresses common ≡ some addrs

  addresses-is_inet :
      (common : SockCommon) (a : BpfIpAddr × BpfIpAddr)
      → addresses common ≡ some a
      → is_inet common.skc_family ≡ true
  unfolding addresses
  addresses-is_inet common a h = ground arith

  -- `notify` leaves the cache alone.
  pub notify-cache :
      (p : Probe c) (ctx : Context) (sk : ℕ) (ret : ℤ) (channel : Channel)
      → (notify c kernel p ctx sk ret channel).0.cache ≡ p.cache
  unfolding notify
  notify-cache p ctx sk ret channel = ground arith

  inserted-other :
      (p : Probe c) (k socket j : ℕ) (o : Result c.Map ℤ)
      → c.insert p.cache k socket ≡ o
      → (k == j) ≡ false
      → value c (inserted c kernel p o).0.cache j ≡ value c p.cache j
  unfolding inserted
  inserted-other p k socket j (err e) h other = refl
  inserted-other p k socket j (ok m) h other =
      c.get-insert p.cache m k socket j h
      ∙ ap (λ b. if b then some socket else value c p.cache j) other

  inserted-same :
      (p : Probe c) (k socket : ℕ) (o : Result c.Map ℤ)
      → c.insert p.cache k socket ≡ o
      → (inserted c kernel p o).1 ≡ ok 0
      → value c (inserted c kernel p o).0.cache k ≡ some socket
  unfolding inserted
  inserted-same p k socket (err e) h done' = cc
  inserted-same p k socket (ok m) h done' =
      c.get-insert p.cache m k socket k h
      ∙ ap (λ b. if b then some socket else value c p.cache k) (eq_refl k)

  get-try_msg :
      (p : Probe c) (ctx : Context) (k : ℕ)
      → (ctx.pid_tgid == k) ≡ false
      → value c (try_msg c kernel p ctx).0.cache k ≡ value c p.cache k
  unfolding try_msg
  get-try_msg p ctx k other = elim (Option-cases ctx.arg) [
    | inl no' ↦ rw no' refl
    | inr (socket, arg) ↦ elim (Result-cases (kernel.read_sk socket)) [
      | inr (e, bad) ↦ rw (arg, bad) refl
      | inl (sk, read) ↦ elim (Result-cases (kernel.read_common sk)) [
        | inr (e, bad) ↦ rw (arg, read, bad) refl
        | inl (common, got) ↦
            rw (arg, read, got)
              (if_cases (λ (r : Probe c × Result ℕ ℤ). value c r.0.cache k ≡ value c p.cache k)
                (is_inet common.skc_family)
                (λ _.
                  inserted-other p ctx.pid_tgid socket k (c.insert p.cache ctx.pid_tgid socket) refl
                    other)
                (λ _. refl))
      ]
    ]
  ]

  get-take_entry :
      (p : Probe c) (ctx : Context) (k : ℕ)
      → (ctx.pid_tgid == k) ≡ false
      → value c (take_entry c kernel p ctx).0.cache k ≡ value c p.cache k
  unfolding take_entry
  get-take_entry p ctx k other = elim (Option-cases (c.get p.cache ctx.pid_tgid)) [
    | inl none' ↦ rw (none', take_entry) refl
    | inr (slot, some') ↦
        rw (some', take_entry)
          (c.get-remove p.cache ctx.pid_tgid k
            ∙ ap (λ b. if b then none else value c p.cache k) other)
  ]

  -- `report` leaves the cache alone.
  pub report-cache :
      (p : Probe c) (ctx : Context) (channel : Channel) (entry : Option c.Slot)
      → (report c kernel p ctx channel entry).0.cache ≡ p.cache
  unfolding report notify
  report-cache p ctx channel entry = ground arith

  get-step :
      (p : Probe c) (call : Call c) (k : ℕ)
      → (thread call == k) ≡ false
      → value c (step p call).cache k ≡ value c p.cache k
  unfolding step inet_sock_set_state
  get-step p (entered ctx) k h = get-try_msg p ctx k h
  get-step p (took ctx) k h = get-take_entry p ctx k h
  get-step p (reported channel ctx entry) k h =
      ap (λ m. value c m k) (report-cache p ctx channel entry)
  get-step p (state_set ctx sk family) k h =
      if_cases (λ (r : Probe c × ℕ). value c r.0.cache k ≡ value c p.cache k) (is_inet family)
        (λ _. ap (λ m. value c m k) (notify-cache p ctx sk _ _)) (λ _. refl)

  -- The entry of a thread stays in the cache while other threads run probes.
  pub get-run :
      (p : Probe c) (calls : List (Call c)) (k : ℕ)
      → All (λ call. (thread call == k) ≡ false) calls
      → value c (run p calls).cache k ≡ value c p.cache k
  unfolding run
  get-run p [] k h = refl
  get-run p (call ∷ calls) k h = get-run (step p call) calls k h.1 ∙ get-step p call k h.0

  -- An entry probe that succeeds on a socket of an internet family caches it for its thread.
  pub try_msg_caches :
      (p : Probe c) (ctx : Context) (socket : ℕ) {common : SockCommon} {sk_type : ℕ}
      {addrs : BpfIpAddr × BpfIpAddr}
      → ctx.arg ≡ some socket
      → Readable socket common sk_type addrs
      → (try_msg c kernel p ctx).1 ≡ ok 0
      → value c (try_msg c kernel p ctx).0.cache ctx.pid_tgid ≡ some socket
  unfolding try_msg
  try_msg_caches p ctx socket {common} {addrs} has_arg r =
      let inet = addresses-is_inet common addrs r.addressed in
      rw (has_arg, r.sk_read, r.common_read, inet)
        (inserted-same p ctx.pid_tgid socket (c.insert p.cache ctx.pid_tgid socket) refl)
