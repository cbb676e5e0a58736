-- ===== src/Filter/Matches.antt =====
-- ptraf-filter/src/interpretor.rs: what a filter expression says of a thing, as a proposition.
use ptraf.Shared.{
  ◌≡◌, refl, ◌↔◌, ◌⊎◌, inl, inr, Bool, true, false, ◌&&◌, ◌||◌, ==_iff, Bool-cases, some, none,
  arith, Option,
}
use ptraf.Shared
use ptraf.Std.Ip.{ip_eq_iff}
use ptraf.Filter.Expr.{Expr, Filterable, Protocol, IpVersion, protocol_eq, ip_version_eq}
use ptraf.Filter.Interpretor.{Interpretor, eval, filter}

-- A Boolean operation decides what its operands' propositions are joined to.
pub &&_iff :
    {P Q : Type 0} (a b : Bool) → (a ≡ true) ↔ P → (b ≡ true) ↔ Q → ((a && b) ≡ true) ↔ (P × Q)
&&_iff true b p q = (λ h. (p.0 refl, q.0 h), λ h. q.1 h.1)
&&_iff false b p q = (λ h. cc, λ h. p.1 h.0)

||_iff : {P Q : Type 0} (a b : Bool) → (a ≡ true) ↔ P → (b ≡ true) ↔ Q → ((a || b) ≡ true) ↔ (P ⊎ Q)
||_iff true b p q = (λ h. inl (p.0 refl), λ h. refl)
||_iff false b p q = (λ h. inr (q.0 h), elim [ inl x ↦ let e = p.1 x in cc | inr y ↦ q.1 y ])

not_iff : {P : Type 0} (a : Bool) → (a ≡ true) ↔ P → (Shared.not a ≡ true) ↔ (¬ P)
not_iff true p = (λ h. cc, λ h. absurd (h (p.0 refl)))
not_iff false p = (λ h x. let e = p.1 x in cc, λ h. refl)

protocol_eq_iff : (p q : Protocol) → (protocol_eq p q ≡ true) ↔ (p ≡ q)
protocol_eq_iff p q = ground arith

ip_version_eq_iff : (v w : IpVersion) → (ip_version_eq v w ≡ true) ↔ (v ≡ w)
ip_version_eq_iff v w = ground arith

module _ {F : Type 0} ⦃filterable : Filterable F⦄ (f : F) where
  open filterable use {
    pid, protocol, ip_version, local_address, remote_address, local_port, remote_port,
  }

  -- The meaning of an expression, as a proposition about `f`.
  abbrev pub Matches : Expr → Type 0
  Matches (Expr.pid n) = pid f ≡ n
  Matches (Expr.protocol p) = protocol f ≡ some p
  Matches (Expr.ip_version v) = ip_version f ≡ v
  Matches (Expr.addr a) = (local_address f ≡ a) ⊎ (remote_address f ≡ a)
  Matches (Expr.local_addr a) = local_address f ≡ a
  Matches (Expr.remote_addr a) = remote_address f ≡ a
  Matches (Expr.port p) = (local_port f ≡ p) ⊎ (remote_port f ≡ p)
  Matches (Expr.local_port p) = local_port f ≡ p
  Matches (Expr.remote_port p) = remote_port f ≡ p
  Matches (Expr.and a b) = Matches a × Matches b
  Matches (Expr.or a b) = Matches a ⊎ Matches b
  Matches (Expr.not a) = ¬ Matches a

  eval_iff : (e : Expr) → (eval f e ≡ true) ↔ Matches e
  unfolding eval
  eval_iff (Expr.pid n) = ==_iff (pid f) n
  eval_iff (Expr.protocol p) = ground arith
  eval_iff (Expr.ip_version v) = ip_version_eq_iff (ip_version f) v
  eval_iff (Expr.addr a) =
      ||_iff _ _ (ip_eq_iff (local_address f) a) (ip_eq_iff (remote_address f) a)
  eval_iff (Expr.local_addr a) = ip_eq_iff (local_address f) a
  eval_iff (Expr.remote_addr a) = ip_eq_iff (remote_address f) a
  eval_iff (Expr.port p) = ground arith
  eval_iff (Expr.local_port p) = ==_iff (local_port f) p
  eval_iff (Expr.remote_port p) = ==_iff (remote_port f) p
  eval_iff (Expr.and a b) = &&_iff (eval f a) (eval f b) (eval_iff a) (eval_iff b)
  eval_iff (Expr.or a b) = ||_iff (eval f a) (eval f b) (eval_iff a) (eval_iff b)
  eval_iff (Expr.not a) = not_iff (eval f a) (eval_iff a)

  -- The interpreter accepts exactly what its expression describes.
  pub filter_iff : (i : Interpretor) → (filter i f ≡ true) ↔ Matches i.ast
  unfolding filter
  filter_iff i = eval_iff i.ast
