-- ===== src/Program/Terminal.antt =====
-- ptraf/src/ui.rs, `run_ui`: the terminal is set up, the loop runs, and the terminal is restored.
-- Which calls of the terminal fail comes from outside.
use ptraf.Shared.{
  ◌≡◌, refl, sym, ap, subst, ◌⊎◌, Bool, true, false, List, [], ◌∷◌, ◌++◌, map, All, if◌then◌else◌,
  if_cases, inl, inr,
}
use ptraf.Shared.Results.{Result, ok, err}

-- The calls of `run_ui`, each of which may return early.
pub data Call : Type 0 where
  enable_raw_mode enter_alternate_screen new_terminal clear : Call
  disable_raw_mode leave_alternate_screen show_cursor : Call

abbrev pub set_up : List Call
set_up = enable_raw_mode ∷ enter_alternate_screen ∷ new_terminal ∷ clear ∷ []

abbrev pub restore : List Call
restore = disable_raw_mode ∷ leave_alternate_screen ∷ show_cursor ∷ []

-- What has been done: the calls that worked, with the run of the loop among them.
pub data Done : Type 0 where
  called : Call → Done
  app_ran : Done

module _ {E : Type 0} (fails : Call → Bool) (error : Call → E) where
  -- Calls in turn, up to the first one that fails.
  unfoldable pub call_all : List Call → List Done × Result (Unit {0}) E
  call_all [] = ([], ok tt)
  call_all (c ∷ cs) =
      let rest = call_all cs in if fails c then ([], err (error c)) else (called c ∷ rest.0, rest.1)

  abbrev after_restore :
      Result (Unit {0}) E → List Done × Result (Unit {0}) E → List Done × Result (Unit {0}) E
  after_restore res (ds, err e) = (ds, err e)
  after_restore res (ds, ok _) = (ds, res)

  abbrev after_set_up :
      Result (Unit {0}) E → List Done × Result (Unit {0}) E → List Done × Result (Unit {0}) E
  after_set_up res (ds, err e) = (ds, err e)
  after_set_up res (ds, ok _) =
      let r = after_restore res (call_all restore) in (ds ++ app_ran ∷ r.0, r.1)

  -- `run_ui`, with what `run_app` returns.
  unfoldable pub run_ui : Result (Unit {0}) E → List Done × Result (Unit {0}) E
  unfolding call_all
  run_ui res = after_set_up res (call_all set_up)

  abbrev pub Works : List Call → Type 0
  Works cs = All (λ c. fails c ≡ false) cs

  -- The calls up to one that fails.
  abbrev pub FailsAt : List Call → List Call → Call → Type 0
  FailsAt cs pre c = (rest : List Call) × (cs ≡ pre ++ c ∷ rest) × Works pre × (fails c ≡ true)

  abbrev Ends : List Call → List Done × Result (Unit {0}) E → Type 0
  Ends cs r =
      (Works cs × (r ≡ (map called cs, ok tt)))
      ⊎ ((pre : List Call) × (c : Call) × FailsAt cs pre c × (r ≡ (map called pre, err (error c))))

  abbrev prepend : Call → List Done × Result (Unit {0}) E → List Done × Result (Unit {0}) E
  prepend c r = (called c ∷ r.0, r.1)

  call_all-Ends : (cs : List Call) → Ends cs (call_all cs)
  unfolding call_all
  call_all-Ends [] = inl (tt, refl)
  call_all-Ends (c ∷ cs) =
      if_cases (Ends (c ∷ cs)) (fails c) (λ f. inr ([], c, (cs, refl, tt, f), refl))
        (λ w. later w (call_all-Ends cs))
    where
      later : fails c ≡ false → Ends cs (call_all cs) → Ends (c ∷ cs) (prepend c (call_all cs))
      later w (inl (ws, e)) = inl ((w, ws), ap (prepend c) e)
      later w (inr (pre, b, (rest, is, ws, f), e)) =
          inr (c ∷ pre, b, (rest, ap (λ l. c ∷ l) is, (w, ws), f), ap (prepend c) e)

  -- The ways in which `run_ui` ends.
  pub data RunsUi (res : Result (Unit {0}) E) : List Done × Result (Unit {0}) E → Type 0 where
    whole :
        Works set_up
        → Works restore
        → RunsUi res (map called set_up ++ app_ran ∷ map called restore, res)
    not_set_up :
        (pre : List Call) (c : Call)
        → FailsAt set_up pre c
        → RunsUi res (map called pre, err (error c))
    not_restored :
        (pre : List Call) (c : Call)
        → Works set_up
        → FailsAt restore pre c
        → RunsUi res (map called set_up ++ app_ran ∷ map called pre, err (error c))

  -- Where no call of the terminal fails, the loop runs between the calls that set the terminal up
  -- and those that restore it, and `run_ui` returns what the loop has returned, be it an error.
  -- Where a call that sets it up fails, its error is returned and nothing is restored, nor does
  -- the loop run. Where a call that restores it fails, its error takes the place of what the loop
  -- has returned, and the calls after it are left out.
  pub run_ui-RunsUi : (res : Result (Unit {0}) E) → RunsUi res (run_ui res)
  unfolding run_ui
  run_ui-RunsUi res = start (call_all-Ends set_up) (call_all-Ends restore)
    where
      start :
          Ends set_up (call_all set_up)
          → Ends restore (call_all restore)
          → RunsUi res (after_set_up res (call_all set_up))
      start (inr (pre, c, f, e)) k =
          subst (λ r. RunsUi res (after_set_up res r)) (sym e) (not_set_up pre c f)
      start (inl (ws, e)) (inl (vs, g)) =
          subst (λ r. RunsUi res (after_set_up res r)) (sym e)
            (subst
              (λ r.
                RunsUi res
                  (map called set_up ++ app_ran ∷ (after_restore res r).0, (after_restore res r).1))
              (sym g) (whole ws vs))
      start (inl (ws, e)) (inr (pre, c, f, g)) =
          subst (λ r. RunsUi res (after_set_up res r)) (sym e)
            (subst
              (λ r.
                RunsUi res
                  (map called set_up ++ app_ran ∷ (after_restore res r).0, (after_restore res r).1))
              (sym g) (not_restored pre c ws f))
