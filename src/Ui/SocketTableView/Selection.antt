-- ===== src/Ui/SocketTableView/Selection.antt =====
-- ptraf/src/ui/socktable.rs: the selected row and the keys that move it.
use ptraf.Shared.{
  ℕ, ◌+◌, ◌-◌, ◌<◌, ◌≡◌, refl, sym, ap, subst, ◌∙◌, ◌⊎◌, inl, inr, true, false, Option, none, some,
  if◌then◌else◌, get_elem?-lt, Bool-cases, ◌==◌, ltb, arith,
}
use ptraf.Clock.{u64_mod}
use ptraf.Ui.Term.{Term}
use ptraf.Ui.SocketTable.{Entry}
use ptraf.Ui.SocketTableView.{
  SocketTableView, len, is_empty, next_row, down, selected_entry, selected_pid,
}

next_row-lt : (n : ℕ) (o : Option ℕ) → (n == 0) ≡ false → next_row n o < n
next_row-lt n o h = ground arith

-- The row after a row of a table of `n` rows, the first one after none.
abbrev pub row_after : ℕ → Option ℕ → ℕ
row_after n none = 0
row_after n (some row) = if ltb (row + 1) n then row + 1 else n - 1

next_row-row_after :
    (n : ℕ) (o : Option ℕ) → (n == 0) ≡ false → n < u64_mod → next_row n o ≡ row_after n o
next_row-row_after n none h b = refl
next_row-row_after n (some row) h b = ground arith

module _ {t : Term} where
  -- No row of an empty table is selected, and one of any other is, with the process of its entry.
  pub record Selects (v : SocketTableView t) (e : Entry) : Type 0 where
    pub entry : selected_entry t v ≡ some e
    pub pid : selected_pid t v ≡ some e.pid

  row-Selects :
      (v : SocketTableView t) (row : ℕ)
      → v.selected ≡ some row
      → row < len t v
      → (e : Entry) × Selects v e
  unfolding selected_entry selected_pid
  row-Selects v row h bound =
      let found = get_elem?-lt v.socket_table.dataset row bound in
      (found.0, record { entry = rw (h, found.1) refl; pid = rw (h, found.1) refl })

  down-empty : (v : SocketTableView t) → is_empty t v ≡ true → (down t v).selected ≡ none
  unfolding down
  down-empty v h = ap (λ b. if b then none else some (next_row (len t v) v.selected)) h

  down-full :
      (v : SocketTableView t)
      → is_empty t v ≡ false
      → (down t v).selected ≡ some (next_row (len t v) v.selected)
  unfolding down
  down-full v h = ap (λ b. if b then none else some (next_row (len t v) v.selected)) h

  len-down : (v : SocketTableView t) → len t (down t v) ≡ len t v
  unfolding down
  len-down v = refl

  -- `down` on an empty table selects nothing. On any other, whose rows fit a machine word, it
  -- selects an entry of the table: the first one if none was selected, the next one if there is
  -- one, and the last one otherwise, also where the table has become shorter since.
  pub down_lem :
      (v : SocketTableView t)
      → len t v < u64_mod
      → ((len t v ≡ 0) × ((down t v).selected ≡ none))
        ⊎ ((e : Entry) × Selects (down t v) e
            × ((down t v).selected ≡ some (row_after (len t v) v.selected)))
  down_lem v b = elim (Bool-cases (is_empty t v)) [
    | inl empty ↦ inl (ground arith, down-empty v empty)
    | inr full ↦
        let row = next_row (len t v) v.selected in
        let found =
          row-Selects (down t v) row (down-full v full)
            (subst (λ n. row < n) (sym (len-down v)) (next_row-lt (len t v) v.selected full)) in
        inr (
          found.0,
          found.1,
          down-full v full ∙ ap some (next_row-row_after (len t v) v.selected full b),
        )
  ]
