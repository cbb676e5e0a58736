-- ===== src/Store/Segment/Sockets.antt =====
-- The sockets that a segment keeps: one for each local address.
use mathlib.Core.List.{
  Perm, Mem, Nodup, Nodup-cons, mem-cons, not-mem-nil, mem-cons_self, mem-cons_of_mem,
  mem_of_ne_of_mem, Mem-prop,
}
use mathlib.Core.List.Perm
use mathlib.Core.Logic.{◌∨₁◌, ∨₁_prop}
use mathlib.Core.Logic.Or
use ptraf.Shared.{
  ℕ, ◌≡◌, refl, ◌↔◌, inl, inr, true, List, [], ◌∷◌, map, any, if◌then◌else◌, Bool-cases,
}
use ptraf.Shared.Int.{ℤ}
use ptraf.Shared.Results.{Result, ok, err}
use ptraf.Std.Bytes.{Endian}
use ptraf.Std.Ip.{SocketAddr, addr_eq, addr_eq_iff}
use ptraf.Common.Types.{SockMsgEvent, packet_size, local_sock_addr}
use ptraf.Store.Socket.{Socket, socket_eq, socket_of}
use ptraf.Store.Dash.{Dash}
use ptraf.Store.Segment.{Segment, update, batch_update}

-- A set of sockets has an element for an address exactly when the address is among its own.
any_iff :
    (a : SocketAddr) (xs : List Socket)
    → (any (λ x. addr_eq a x.local) xs ≡ true) ↔ Mem a (map (λ x. x.local) xs)
any_iff a [] = (λ h. cc, λ m. absurd (not-mem-nil m))
any_iff a (x ∷ xs) = elim (Bool-cases (addr_eq a x.local)) [
  | inl same ↦ (λ h. rw ((addr_eq_iff a x.local).0 same) mem-cons_self, λ m. rw same)
  | inr other ↦ (
    λ h. mem-cons_of_mem _ ((any_iff a xs).0 (rw other at h)),
    λ m.
        rw other
          ((any_iff a xs).1 (mem_of_ne_of_mem (λ e. let t = (addr_eq_iff a x.local).1 e in cc) m)),
  )
]

-- `(e ∨ p) ∨ q` and `p ∨ (e ∨ q)`, for membership in a list with one more element.
regroup :
    {a x : SocketAddr} {P : Type 0} {known rest : List SocketAddr}
    → P ↔ ((a ≡ x) ∨₁ Mem a known)
    → (P ∨₁ Mem a rest) ↔ (Mem a known ∨₁ Mem a (x ∷ rest))
regroup h = (
  λ o.
      Or.elim ∨₁_prop o (λ p. Or.elim ∨₁_prop (h.0 p) (λ e. Or.inr (mem-cons.1 (Or.inl e))) Or.inl)
        (λ m. Or.inr (mem-cons_of_mem _ m)),
  λ o.
      Or.elim ∨₁_prop o (λ m. Or.inl (h.1 (Or.inr m)))
        (λ m. Or.elim ∨₁_prop (mem-cons.0 m) (λ e. Or.inl (h.1 (Or.inl e))) Or.inr),
)

module _ (d : Dash) where
  -- The local addresses of the sockets that a segment has.
  abbrev pub locals : d.Socks → List SocketAddr
  locals socks = map (λ x. x.local) (d.iter socks)

  locals-insert :
      (s : d.Socks) (x : Socket)
      → Perm
          (locals (d.insert s x))
          (if any (socket_eq x) (d.iter s) then locals s else x.local ∷ locals s)
  locals-insert s x = elim (Bool-cases (any (socket_eq x) (d.iter s))) [
    | inl old ↦ rw old (Perm.map _ (rw old at (d.iter-insert s x)))
    | inr new ↦ rw new (Perm.map _ (rw new at (d.iter-insert s x)))
  ]

  insert-Nodup : (s : d.Socks) (x : Socket) → Nodup (locals s) → Nodup (locals (d.insert s x))
  insert-Nodup s x h = elim (Bool-cases (any (socket_eq x) (d.iter s))) [
    | inl old ↦ Perm.nodup (Perm.symm (rw old at (locals-insert s x))) h
    | inr new ↦
        Perm.nodup (Perm.symm (rw new at (locals-insert s x)))
          (Nodup-cons.1 (λ m. (let t = (any_iff x.local (d.iter s)).1 m in cc), h))
  ]

  mem-insert :
      (s : d.Socks) (x : Socket) (a : SocketAddr)
      → Mem a (locals (d.insert s x)) ↔ ((a ≡ x.local) ∨₁ Mem a (locals s))
  mem-insert s x a = elim (Bool-cases (any (socket_eq x) (d.iter s))) [
    | inl old ↦ (
      λ m. Or.inr ((Perm.mem_iff (rw old at (locals-insert s x))).0 m),
      λ o.
          (Perm.mem_iff (rw old at (locals-insert s x))).1
            (Or.elim Mem-prop o (λ e. rw e ((any_iff x.local (d.iter s)).0 old)) (λ m. m)),
    )
    | inr new ↦ (
      λ m. mem-cons.0 ((Perm.mem_iff (rw new at (locals-insert s x))).0 m),
      λ o. (Perm.mem_iff (rw new at (locals-insert s x))).1 (mem-cons.1 o),
    )
  ]

  module _ (e : Endian) where
    -- The local addresses of the messages that carry no error.
    abbrev seen_in : Result ℕ ℤ → SockMsgEvent → List SocketAddr → List SocketAddr
    seen_in (ok len) m rest = local_sock_addr e m ∷ rest
    seen_in (err x) m rest = rest

    abbrev pub seen : List SockMsgEvent → List SocketAddr
    seen [] = []
    seen (m ∷ ms) = seen_in (packet_size m) m (seen ms)

    abbrev pub known : Segment d → List SocketAddr
    known s = locals s.socks

    -- A property of the set of sockets that every insertion keeps is kept by a message.
    update_keeps {ℓ} :
        (P : d.Socks → Type ℓ)
        → ((s : d.Socks) (x : Socket) → P s → P (d.insert s x))
        → (s : Segment d) (m : SockMsgEvent) → P s.socks
        → P (update d e s m).socks
    unfolding update
    update_keeps P keep s m h = go (packet_size m) refl
      where
        go : (r : Result ℕ ℤ) → packet_size m ≡ r → P (update d e s m).socks
        go (ok len) q = rw (q, update) (keep s.socks (socket_of e m) h)
        go (err x) q = rw (q, update) h

    -- If no two sockets of a segment have one local address, then no two have after a batch,
    -- whatever its messages are.
    pub batch_update-Nodup :
        (s : Segment d) (ms : List SockMsgEvent)
        → Nodup (known s)
        → Nodup (known (batch_update d e s ms))
    unfolding batch_update
    batch_update-Nodup s [] h = h
    batch_update-Nodup s (m ∷ ms) h =
        batch_update-Nodup (update d e s m) ms
          (update_keeps (λ t. Nodup (locals t)) insert-Nodup s m h)

    mem-update :
        (s : Segment d) (m : SockMsgEvent) (a : SocketAddr) (rest : List SocketAddr)
        → (Mem a (known (update d e s m)) ∨₁ Mem a rest)
          ↔ (Mem a (known s) ∨₁ Mem a (seen_in (packet_size m) m rest))
    unfolding update socket_of
    mem-update s m a rest = go (packet_size m) refl
      where
        go :
            (r : Result ℕ ℤ)
            → packet_size m ≡ r
            → (Mem a (known (update d e s m)) ∨₁ Mem a rest)
              ↔ (Mem a (known s) ∨₁ Mem a (seen_in r m rest))
        go (ok len) q = rw (q, update) (regroup (mem-insert s.socks (socket_of e m) a))
        go (err x) q = rw (q, update) (λ o. o, λ o. o)

    -- A segment knows the local addresses that it knew before a batch, and those of the messages
    -- of the batch that carry no error, and no others.
    pub mem-batch_update :
        (s : Segment d) (ms : List SockMsgEvent) (a : SocketAddr)
        → Mem a (known (batch_update d e s ms)) ↔ (Mem a (known s) ∨₁ Mem a (seen ms))
    unfolding batch_update
    mem-batch_update s [] a =
        (Or.inl, λ o. Or.elim Mem-prop o (λ m. m) (λ m. absurd (not-mem-nil m)))
    mem-batch_update s (m ∷ ms) a =
        let rec = mem-batch_update (update d e s m) ms a in
        let one = mem-update s m a (seen ms) in (λ h. one.0 (rec.0 h), λ o. rec.1 (one.1 o))
