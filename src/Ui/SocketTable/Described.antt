-- ===== src/Ui/SocketTable/Described.antt =====
-- ptraf/src/ui/socktable.rs: which rows the table has, described without the collection.
use mathlib.Core.List.{reverse, reverse_aux}
use ptraf.Shared.{
  ℕ, ◌+◌, ◌-◌, ◌<◌, ◌≤◌, ◌≡◌, refl, sym, ◌∙◌, ◌⊎◌, inl, inr, ◌↔◌, Bool, true, false, Option, none,
  some, List, [], ◌∷◌, any, take_while, Bool-cases, leb, ==_iff, All, arith,
}
use ptraf.Std.Ip.{SocketAddr, addr_eq_iff, ip_eq_iff}
use ptraf.Clock.{Timestamp, ClockNano, trunc, saturating_elapsed_since}
use ptraf.Filter.Interpretor.{Interpretor}
use ptraf.Filter.Matches.{Matches, filter_iff, &&_iff}
use ptraf.Store.Socket.{Socket, match_interest, socket_filterable}
use ptraf.Store.Dash.{Dash}
use ptraf.Store.Series.{Store, TimeSegment}
use ptraf.Store.Series.Invariant.{IsStore}
use ptraf.Ui.Filter.{Filter, unfiltered, process, remote_ip, interest}
use ptraf.Ui.SocketTable.{SocketTable, SocketTableConfig, passes, recent, collect}
use ptraf.Ui.SocketTable.Sums.{counted}
use ptraf.Ui.SocketTable.Keys.{has_row, OneEach}
use ptraf.Ui.SocketTable.Rows.{any_counted, collect_rows}
use ptraf.Ui.Sparkline.Sorted.{Sorted, Sorted-reverse, All-map}
use ptraf.Ui.Sparkline.Points.{Before, segments-Sorted}

-- Some element has a property.
module _ {A : Type 0} where
  abbrev pub Some : (A → Type 0) → List A → Type 0
  Some P [] = ⊥
  Some P (x ∷ xs) = P x ⊎ Some P xs

  Some-map : {P Q : A → Type 0} → ((a : A) → P a → Q a) → (xs : List A) → Some P xs → Some Q xs
  Some-map f [] h = absurd h
  Some-map f (x ∷ xs) (inl p) = inl (f x p)
  Some-map f (x ∷ xs) (inr h) = inr (Some-map f xs h)

  any_iff :
      {P : A → Type 0} (p : A → Bool)
      → ((a : A) → (p a ≡ true) ↔ P a)
      → (xs : List A) → (any p xs ≡ true) ↔ Some P xs
  any_iff p is [] = (λ h. cc, λ h. absurd h)
  any_iff p is (x ∷ xs) =
      let rest = any_iff p is xs in
      elim (Bool-cases (p x)) [
        | inl yes' ↦ (λ _. inl ((is x).0 yes'), λ _. rw yes' refl)
        | inr no' ↦ (
          λ h. inr (rest.0 (rw no' at h)),
          elim [ inl q ↦ let y = (is x).1 q in cc | inr h ↦ rw no' (rest.1 h) ],
        )
      ]

  Some-reverse_aux :
      (P : A → Type 0) (xs r : List A) → Some P (reverse_aux xs r) ↔ (Some P xs ⊎ Some P r)
  Some-reverse_aux P [] r = (λ h. inr h, elim [ inl h ↦ absurd h | inr h ↦ h ])
  Some-reverse_aux P (x ∷ xs) r =
      let rest = Some-reverse_aux P xs (x ∷ r) in
      (
        λ h. elim (rest.0 h) [
          | inl k ↦ inl (inr k)
          | inr (inl k) ↦ inl (inl k)
          | inr (inr k) ↦ inr k
        ],
        elim [
          | inl (inl k) ↦ rest.1 (inr (inl k))
          | inl (inr k) ↦ rest.1 (inl k)
          | inr k ↦ rest.1 (inr (inr k))
        ],
      )

  Some-reverse : (P : A → Type 0) (xs : List A) → Some P (reverse xs) ↔ Some P xs
  Some-reverse P xs =
      let both = Some-reverse_aux P xs [] in
      (λ h. elim (both.0 h) [ inl k ↦ k | inr k ↦ absurd k ], λ h. both.1 (inl h))

  -- Where a test that fails fails for all that follow, the longest run that passes it has all that
  -- pass it.
  Some-take_while :
      (P : A → Type 0) (p : A → Bool) (xs : List A)
      → Sorted (λ a b. p b ≡ true → p a ≡ true) xs
      → Some P (take_while p xs) ↔ Some (λ a. (p a ≡ true) × P a) xs
  Some-take_while P p [] h = (λ k. k, λ k. k)
  Some-take_while P p (x ∷ xs) h =
      let rest = Some-take_while P p xs h.1 in
      elim (Bool-cases (p x)) [
        | inl yes' ↦ (
          λ k. elim (rw (yes', Some) at k) [ inl q ↦ inl (yes', q) | inr q ↦ inr (rest.0 q) ],
          λ k. rw (yes', Some) (elim k [ inl q ↦ inl q.1 | inr q ↦ inr (rest.1 q) ]),
        )
        | inr no' ↦ (
          λ k. absurd (rw (no', Some) at k),
          elim [ inl q ↦ absurd (clash (sym no' ∙ q.0)) | inr q ↦ absurd (nowhere no' xs h.0 q) ],
        )
      ]
    where
      clash : false ≡ true → ⊥
      clash e = cc

      nowhere :
          p x ≡ false
          → (ys : List A) → All (λ b. p b ≡ true → p x ≡ true) ys
          → Some (λ a. (p a ≡ true) × P a) ys
          → ⊥
      nowhere no' [] l k = k
      nowhere no' (y ∷ ys) l (inl q) = clash (sym no' ∙ l.0 q.0)
      nowhere no' (y ∷ ys) l (inr k) = nowhere no' ys l.1 k

-- A socket of the process or the remote address that a filter names.
abbrev pub Names : Filter → Socket → Type 0
Names unfiltered x = Unit {0}
Names (process p) x = x.pid ≡ p
Names (remote_ip a) x = x.remote.ip ≡ a

-- What a custom filter says of a socket.
abbrev pub Meets : Option Interpretor → Socket → Type 0
Meets none x = Unit {0}
Meets (some i) x = Matches x i.ast

module _ (d : Dash) where
  -- A segment within a time before `u` knows a socket with a local address that the filter names and
  -- the custom filter describes.
  abbrev pub Known :
      ℕ → Timestamp → SocketAddr → Filter → Option Interpretor → TimeSegment d → Type 0
  Known w u k f i s =
      (u ≤ s.ts + w) × Some (λ x. (Names f x × Meets i x) × (x.local ≡ k)) (d.iter s.segment.socks)

  match_interest-Names :
      (f : Filter) (x : Socket) → (match_interest x (interest f) ≡ true) ↔ Names f x
  unfolding match_interest interest
  match_interest-Names unfiltered x = (λ h. tt, λ h. refl)
  match_interest-Names (process p) x =
      let e = ==_iff p x.pid in (λ h. sym (e.0 h), λ h. e.1 (sym h))
  match_interest-Names (remote_ip a) x =
      let e = ip_eq_iff a x.remote.ip in (λ h. sym (e.0 h), λ h. e.1 (sym h))

  passes_iff :
      (f : Filter) (i : Option Interpretor) (x : Socket)
      → (passes f i x ≡ true) ↔ (Names f x × Meets i x)
  unfolding passes
  passes_iff f none x =
      &&_iff (match_interest x (interest f)) true (match_interest-Names f x) (λ h. tt, λ h. refl)
  passes_iff f (some i) x =
      &&_iff (match_interest x (interest f)) _ (match_interest-Names f x) (filter_iff x i)

  counted_iff :
      (k : SocketAddr) (f : Filter) (i : Option Interpretor) (x : Socket)
      → (counted k f i x ≡ true) ↔ ((Names f x × Meets i x) × (x.local ≡ k))
  unfolding counted
  counted_iff k f i x = &&_iff (passes f i x) _ (passes_iff f i x) (addr_eq_iff x.local k)

  within_iff : (u w ts : ℕ) → (leb (u - ts) w ≡ true) ↔ (u ≤ ts + w)
  within_iff u w ts = ground arith

  Sorted-within :
      (w u : ℕ) (q : List (TimeSegment d))
      → Sorted (λ s t. Before d t s) q
      → Sorted (λ s t. leb (u - t.ts) w ≡ true → leb (u - s.ts) w ≡ true) q
  Sorted-within w u [] h = tt
  Sorted-within w u (s ∷ q) h =
      (All-map (λ t. Before d t s) _ (λ t b. older s.ts t.ts b) q h.0, Sorted-within w u q h.1)
    where
      older : (a b : ℕ) → b < a → leb (u - b) w ≡ true → leb (u - a) w ≡ true
      older a b h e = let k = (within_iff u w b).0 e in (within_iff u w a).1 (omega arith)

  any_counted_iff :
      (c : SocketTableConfig) (u : Timestamp) (k : SocketAddr) (f : Filter) (i : Option Interpretor)
      (q : List (TimeSegment d))
      → Sorted (Before d) q
      → (any_counted d k f i (recent d c u q) ≡ true) ↔ Some (Known c.collection_window u k f i) q
  unfolding recent saturating_elapsed_since
  any_counted_iff c u k f i q h =
      let w = c.collection_window in
      let knows = λ (s : TimeSegment d).
        Some (λ x. (Names f x × Meets i x) × (x.local ≡ k)) (d.iter s.segment.socks) in
      let near = λ (s : TimeSegment d). leb (u - s.ts) w in
      let found =
        any_iff {P = knows} (λ s. any (counted k f i) (d.iter s.segment.socks))
          (λ s. any_iff (counted k f i) (counted_iff k f i) (d.iter s.segment.socks))
          (take_while near (reverse q)) in
      let taken =
        Some-take_while knows near (reverse q)
          (Sorted-within w u (reverse q) (Sorted-reverse (Before d) q h)) in
      let turned = Some-reverse (λ s. (near s ≡ true) × knows s) q in
      (
        λ e.
            Some-map (λ s r. ((within_iff u w s.ts).0 r.0, r.1)) q (turned.0 (taken.0 (found.0 e))),
        λ e.
            found.1 (taken.1 (turned.1 (Some-map (λ s r. ((within_iff u w s.ts).1 r.0, r.1)) q e))),
      )

  -- After a collection from a store with the invariant, with a timestamp that is truncated to `u`: no
  -- two rows of the table are for the same local address, and an address has a row exactly if some
  -- segment of the store that begins at most the collection window before `u` knows a socket with
  -- that address that the filter of the table names and the custom filter describes.
  pub collect-OneEach :
      (self : SocketTable) (ts : Timestamp) (clock : ClockNano) (store : Store d)
      (i : Option Interpretor) (t : SocketTable) (u : Timestamp) (k : SocketAddr)
      → IsStore store
      → collect d self ts clock store i ≡ some t
      → trunc ts store.window ≡ some u
      → OneEach t.dataset
        × ((has_row k t.dataset ≡ true)
            ↔ Some (Known self.config.collection_window u k self.filter i) store.segments)
  collect-OneEach self ts clock store i t u k valid h e =
      let (one, row) = collect_rows d self ts clock store i t u k h e in
      let described =
        any_counted_iff self.config u k self.filter i store.segments
          (segments-Sorted d store.window store.segments valid.window_pos valid.in_windows) in
      (one, (λ r. described.0 (sym row ∙ r), λ r. row ∙ described.1 r))
