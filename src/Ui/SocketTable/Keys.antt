-- ===== src/Ui/SocketTable/Keys.antt =====
-- ptraf/src/ui/socktable.rs: the keys of the cache of entries.
use ptraf.Shared.{
  ◌≡◌, ◌≢◌, refl, sym, ap, ◌∙◌, inl, inr, Bool, is_some, List, [], ◌∷◌, map, any, if_cases,
  Bool-cases, All,
}
use ptraf.Std.Ip.{SocketAddr, addr_eq, addr_eq_iff}
use ptraf.Store.Socket.{Socket}
use ptraf.Ui.SocketTable.{Entry, SocketCache, lookup, upsert}
use ptraf.Ui.Sparkline.Sorted.{Sorted}

abbrev pub Item : Type 0
Item = SocketAddr × Entry

-- Every entry is kept under the local address of its socket, and no two under the same one.
abbrev pub Keyed : Item → Type 0
Keyed e = e.1.socket.local ≡ e.0

abbrev pub Apart : Item → Item → Type 0
Apart a b = a.0 ≢ b.0

-- What holds of the key of an upsert and of the keys before holds of the keys after it.
All-upsert_keys :
    (P : SocketAddr → Type 0) (k : SocketAddr) (f : Entry → Entry) (v : Entry) (m : SocketCache)
    → P k
    → All (λ (e : Item). P e.0) m
    → All (λ (e : Item). P e.0) (upsert k f v m)
unfolding upsert
All-upsert_keys P k f v [] new h = (new, tt)
All-upsert_keys P k f v ((j, w) ∷ m) new h =
    if_cases (All (λ (e : Item). P e.0)) (addr_eq j k) (λ _. (h.0, h.1))
      (λ _. (h.0, All-upsert_keys P k f v m new h.1))

pub upsert-Apart :
    (k : SocketAddr) (f : Entry → Entry) (v : Entry) (m : SocketCache)
    → Sorted Apart m
    → Sorted Apart (upsert k f v m)
unfolding upsert
upsert-Apart k f v [] h = (tt, tt)
upsert-Apart k f v ((j, w) ∷ m) h =
    if_cases (Sorted Apart) (addr_eq j k) (λ _. (h.0, h.1))
      (λ other. (
        All-upsert_keys (λ i. j ≢ i) k f v m
            (λ e. let t = (addr_eq_iff j k).1 e in let u = other in cc) h.0,
        upsert-Apart k f v m h.1,
      ))

pub upsert-Keyed :
    (k : SocketAddr) (f : Entry → Entry) (v : Entry) (m : SocketCache)
    → ((e : Entry) → (f e).socket ≡ e.socket)
    → v.socket.local ≡ k
    → All Keyed m
    → All Keyed (upsert k f v m)
unfolding upsert
upsert-Keyed k f v [] keep new h = (new, tt)
upsert-Keyed k f v ((j, w) ∷ m) keep new h =
    if_cases (All Keyed) (addr_eq j k) (λ _. (ap (λ (s : Socket). s.local) (keep w) ∙ h.0, h.1))
      (λ _. (h.0, upsert-Keyed k f v m keep new h.1))

-- A row for a local address.
abbrev pub has_row : SocketAddr → List Entry → Bool
has_row k es = any (λ (e : Entry). addr_eq e.socket.local k) es

pub has_row-lookup :
    (k : SocketAddr) (m : SocketCache)
    → All Keyed m
    → has_row k (map (λ (e : Item). e.1) m) ≡ is_some (lookup k m)
unfolding lookup
has_row-lookup k [] h = refl
has_row-lookup k ((j, w) ∷ m) h =
    let same : addr_eq w.socket.local k ≡ addr_eq j k = ap (λ a. addr_eq a k) h.0 in
    elim (Bool-cases (addr_eq j k)) [
      | inl here ↦ rw (same, here) refl
      | inr there ↦ rw (same, there) (has_row-lookup k m h.1)
    ]

-- No two rows are for the same local address.
abbrev pub OneEach : List Entry → Type 0
OneEach es = Sorted (λ (a b : Entry). a.socket.local ≢ b.socket.local) es

Apart-values :
    (a : Item) (m : SocketCache)
    → Keyed a
    → All Keyed m
    → All (Apart a) m
    → All (λ (b : Entry). a.1.socket.local ≢ b.socket.local) (map (λ (e : Item). e.1) m)
Apart-values a [] h k l = tt
Apart-values a (b ∷ m) h k l = (λ same. l.0 (sym h ∙ same ∙ k.0), Apart-values a m h k.1 l.1)

pub OneEach-values :
    (m : SocketCache) → All Keyed m → Sorted Apart m → OneEach (map (λ (e : Item). e.1) m)
OneEach-values [] k h = tt
OneEach-values (a ∷ m) k h = (Apart-values a m k.0 k.1 h.0, OneEach-values m k.1 h.1)
