-- ===== src/Ui/SocketTable/Cache.antt =====
-- ptraf/src/ui/socktable.rs: the cache of entries by local address, and its upserts.
use ptraf.Shared.{
  ◌≡◌, refl, sym, ap, ◌∙◌, inl, inr, false, some, [], ◌∷◌, if◌then◌else◌, option_map, unwrap_or,
  All, Bool-cases,
}
use ptraf.Std.Ip.{SocketAddr, addr_eq, addr_eq_iff}
use ptraf.Ui.SocketTable.{Entry, SocketCache, lookup, upsert}

pub lookup-upsert :
    (k j : SocketAddr) (f : Entry → Entry) (v : Entry) (m : SocketCache)
    → lookup j (upsert k f v m)
      ≡ (if addr_eq k j then some (unwrap_or (option_map f (lookup k m)) v) else lookup j m)
unfolding lookup upsert
lookup-upsert k j f v [] = refl
lookup-upsert k j f v ((i, w) ∷ m) = elim (Bool-cases (addr_eq i k)) [
  | inl same ↦
      let moved = ap (λ a. addr_eq a j) ((addr_eq_iff i k).0 same) in
      rw (same, moved)
        (elim (Bool-cases (addr_eq k j)) [ inl here ↦ rw here refl | inr there ↦ rw there refl ])
  | inr other ↦
      rw (other, lookup-upsert k j f v m)
        (elim (Bool-cases (addr_eq k j)) [
          | inl here ↦
              let moved : addr_eq i j ≡ false =
                ap (addr_eq i) (sym ((addr_eq_iff k j).0 here)) ∙ other in
              rw (here, moved) refl
          | inr there ↦ rw there refl
        ])
]

-- A property of the entries that an upsert keeps and establishes.
pub All-upsert {κ} :
    (P : Entry → Type κ) (k : SocketAddr) (f : Entry → Entry) (v : Entry) (m : SocketCache)
    → ((e : Entry) → P e → P (f e))
    → P v
    → All (λ (e : SocketAddr × Entry). P e.1) m
    → All (λ (e : SocketAddr × Entry). P e.1) (upsert k f v m)
unfolding upsert
All-upsert P k f v [] keep new h = (new, tt)
All-upsert P k f v ((j, w) ∷ m) keep new h = elim (Bool-cases (addr_eq j k)) [
  | inl same ↦ rw same (keep w h.0, h.1)
  | inr other ↦ rw other (h.0, All-upsert P k f v m keep new h.1)
]
