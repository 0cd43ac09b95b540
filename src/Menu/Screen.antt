-- ===== src/Menu/Screen.antt =====
-- src/menu.rs: where the menu that `plan` has placed is drawn.
use bang.Common.{
  ℕ, ◌+◌, ◌-◌, ◌%◌, ◌≤◌, ◌<◌, ◌≡◌, refl, sym, ap, subst, ◌∙◌, inl, inr, Bool, true, false, Option,
  none, some, List, [], ◌∷◌, ◌++◌, append_assoc, arith, All, All-append, length, length-append,
  length-take, length-replicate, take, replicate, leb, ltb, ◌==◌, ◌||◌, not, Bool-cases,
}
use bang.Common.Text.{Text, codes}
use bang.Config.{Entry, Config}
use bang.Menu.{
  Event, line_at, cursor, move_to, Layout, Console, Key, up, down, special, printable, State, Next,
  chosen, again, height, status_row, line, plan, entry_lines, countdown, draw, on_key, tick, after,
  pressed, poll, polls, start, opening, closing, choose,
}

-- The layout leaves the menu on the rows of the console.
pub record IsFitted (entries cols rows : ℕ) (l : Layout) : Type 0 where
  pub width : l.cols ≡ cols
  pub count : l.entries ≡ entries
  pub bottom : l.origin + height l ≤ rows

plan-IsFitted :
    (entries cols rows : ℕ) (c : Console) (l : Layout)
    → c.size ≡ some (cols, rows)
    → plan entries c ≡ some l
    → IsFitted entries cols rows l
unfolding plan
plan-IsFitted entries cols rows c l size e =
    let l0 : Layout = record { origin = c.cursor_row; cols = cols; entries = entries } in
    elim (Bool-cases (ltb cols 20 || ltb rows (c.cursor_row + height l0))) [
      | inl small ↦ cc (rw (size, small) at e)
      | inr room ↦ elim (Bool-cases c.can_move) [
        | inl moves ↦
            let same : l0 ≡ l = cc (rw (size, room, moves) at e) in
            subst (IsFitted entries cols rows) same
              (record { width = refl; count = refl; bottom = ground (arith, room) })
        | inr fixed ↦ cc (rw (size, room, fixed) at e)
      ]
    ]

-- What the menu may tell a console of `rows` rows: a line of all columns but the last, on a row of
-- the screen; the caret on or off; and a move to a row, or to the one under the last.
pub data IsOnScreen (cols rows : ℕ) : Event → Type 0 where
  drawn :
      (row : ℕ) (text : Text)
      → row < rows
      → length text ≡ cols - 1
      → IsOnScreen cols rows (line_at row text)
  caret : (on : Bool) → IsOnScreen cols rows (cursor on)
  moved : (row : ℕ) → row ≤ rows → IsOnScreen cols rows (move_to row)

module _ (l : Layout) (es : List Entry) (cols rows : ℕ) (f : IsFitted (length es) cols rows l) where
  abbrev AreOnScreen : List Event → Type 0
  AreOnScreen evs = All (IsOnScreen cols rows) evs

  line-IsOnScreen : (row : ℕ) (text : Text) → row < rows → IsOnScreen cols rows (line l row text)
  unfolding line
  line-IsOnScreen row text h =
      let shown = take (l.cols - 1) text in
      let pad : List ℕ = replicate (l.cols - 1 - length shown) 32 in
      drawn row (shown ++ pad) h (
        omega (
          arith,
          f.width,
          length-append shown pad,
          length-take (l.cols - 1) text,
          length-replicate {A = ℕ} (l.cols - 1 - length shown) 32,
        ))

  entry_lines-AreOnScreen :
      (selected : ℕ) (rest : List Entry) (i : ℕ)
      → i + length rest ≤ length es
      → AreOnScreen (entry_lines l selected rest i)
  unfolding entry_lines
  entry_lines-AreOnScreen selected [] i h = tt
  entry_lines-AreOnScreen selected (e ∷ rest) i h = (
    line-IsOnScreen (l.origin + 2 + i) _ (omega (arith, f.count, f.bottom)),
    entry_lines-AreOnScreen selected rest (i + 1) (omega arith),
  )

  status-IsOnScreen : (text : Text) → IsOnScreen cols rows (line l (status_row l) text)
  status-IsOnScreen text = line-IsOnScreen (status_row l) text (omega (arith, f.bottom))

  countdown-IsOnScreen :
      (selected remaining : ℕ) → IsOnScreen cols rows (countdown l es selected remaining)
  unfolding countdown
  countdown-IsOnScreen selected remaining = status-IsOnScreen _

  draw-AreOnScreen : (selected : ℕ) → AreOnScreen (draw l es selected)
  unfolding draw
  draw-AreOnScreen selected =
      let title =
        line-IsOnScreen l.origin (codes "    Select what to boot:") (omega (arith, f.bottom)) in
      let under = line-IsOnScreen (l.origin + 1) [] (omega (arith, f.bottom)) in
      let last = line-IsOnScreen (l.origin + 2 + length es) [] (omega (arith, f.count, f.bottom)) in
      let hint =
        line-IsOnScreen (l.origin + 3 + l.entries)
          (codes "    up/down to move, a number to pick, enter to boot")
          (omega (arith, f.bottom)) in
      (
        title,
        (
          under,
          All-append (IsOnScreen cols rows) (entry_lines l selected es 0) _
              (entry_lines-AreOnScreen selected es 0 (omega arith))
              (last, (hint, (status-IsOnScreen [], tt))),
        ),
      )

  on_key-AreOnScreen : (s : State) (key : Key) → AreOnScreen (on_key (some l) es s key).0
  unfolding on_key
  on_key-AreOnScreen s up = entry_lines-AreOnScreen _ es 0 (omega arith)
  on_key-AreOnScreen s down = entry_lines-AreOnScreen _ es 0 (omega arith)
  on_key-AreOnScreen s special = tt
  on_key-AreOnScreen s (printable c) = tt

  tick-AreOnScreen : (s : State) → AreOnScreen (tick (some l) es s).0
  unfolding tick
  tick-AreOnScreen s = elim (Bool-cases (not ((s.ticks + 1) % 10 == 0))) [
    | inl within ↦ rw within tt
    | inr second ↦ elim (Bool-cases (s.remaining - 1 == 0)) [
      | inl out ↦ rw (second, out) tt
      | inr left ↦ rw (second, left) (countdown-IsOnScreen s.selected (s.remaining - 1), tt)
    ]
  ]

  after-AreOnScreen :
      (ev : List Event) (n : Next) → AreOnScreen ev → AreOnScreen (after (some l) es (ev, n)).0
  after-AreOnScreen ev (chosen i) h = h
  after-AreOnScreen ev (again s) h = elim (Bool-cases s.counting) [
    | inl running ↦
        rw running (
          All-append (IsOnScreen cols rows) ev _ h
            (tick-AreOnScreen (record s { counting = true })))
    | inr stopped ↦ rw stopped h
  ]

  pressed-AreOnScreen : (s : State) (key : Key) → AreOnScreen (pressed (some l) es s key).0
  pressed-AreOnScreen s key =
      let handled = on_key-AreOnScreen (record s { counting = false }) key in
      elim (Bool-cases s.counting) [
        | inl running ↦ rw running (status-IsOnScreen _, handled)
        | inr stopped ↦ rw stopped handled
      ]

  poll-AreOnScreen : (s : State) (key : Option Key) → AreOnScreen (poll (some l) es s key).0
  unfolding poll
  poll-AreOnScreen s none = after-AreOnScreen [] (again s) tt
  poll-AreOnScreen s (some key) =
      after-AreOnScreen _ (pressed (some l) es s key).1 (pressed-AreOnScreen s key)

  polls-AreOnScreen :
      (s : State) (keys : List (Option Key)) → AreOnScreen (polls (some l) es s keys).0
  unfolding polls
  polls-AreOnScreen s [] = tt
  polls-AreOnScreen s (k ∷ ks) =
      next_round (λ s'. polls-AreOnScreen s' ks) (poll (some l) es s k).0 (poll (some l) es s k).1
        (poll-AreOnScreen s k)
    where
      next_round :
          ((s' : State) → AreOnScreen (polls (some l) es s' ks).0)
          → (ev : List Event) (r : Next) → AreOnScreen ev
          → AreOnScreen
              (elim r as (λ _. List Event × Next) [
                | chosen i ↦ (ev, chosen i)
                | again s' ↦ (ev ++ (polls (some l) es s' ks).0, (polls (some l) es s' ks).1)
              ]).0
      next_round later ev (chosen i) h = h
      next_round later ev (again s') h = All-append (IsOnScreen cols rows) ev _ h (later s')

  opening-AreOnScreen : (cfg : Config) → cfg.entries ≡ es → AreOnScreen (opening (some l) cfg)
  opening-AreOnScreen cfg same =
      subst
        (λ bs.
          AreOnScreen
            (cursor false ∷ (draw l bs cfg.default ++ countdown l bs cfg.default cfg.timeout ∷ [])))
        (sym same)
        (
          caret false,
          All-append (IsOnScreen cols rows) (draw l es cfg.default) _ (draw-AreOnScreen cfg.default)
              (countdown-IsOnScreen cfg.default cfg.timeout, tt),
        )

  closing-AreOnScreen : (n : Next) → AreOnScreen (closing (some l) n)
  closing-AreOnScreen (again s) = tt
  closing-AreOnScreen (chosen i) =
      (caret true, (moved (status_row l + 1) (omega (arith, f.bottom)), tt))

-- Where `plan` places the menu on a console, whichever keys are pressed for however long: every
-- line is drawn on a row of the console and fills all its columns but the last, nothing is printed
-- that could scroll, and the cursor is moved to no row further than the one under the last.
pub choose-IsOnScreen :
    (console : Console) (cfg : Config) (keys : List (Option Key)) (l : Layout) (cols rows : ℕ)
    → console.size ≡ some (cols, rows)
    → plan (length cfg.entries) console ≡ some l
    → All (IsOnScreen cols rows) (choose console cfg keys).0
unfolding choose
choose-IsOnScreen console cfg keys l cols rows size placed =
    let f = plan-IsFitted (length cfg.entries) cols rows console l size placed in
    elim (Bool-cases (leb (length cfg.entries) 1 || cfg.timeout == 0)) [
      | inl at_once ↦ rw at_once tt
      | inr menu ↦
          rw (menu, placed)
            (All-append (IsOnScreen cols rows) (opening (some l) cfg) _
              (opening-AreOnScreen l cfg.entries cols rows f cfg refl)
              (All-append (IsOnScreen cols rows) (polls (some l) cfg.entries (start cfg) keys).0 _
                (polls-AreOnScreen l cfg.entries cols rows f (start cfg) keys)
                (closing-AreOnScreen l cfg.entries cols rows f
                  (polls (some l) cfg.entries (start cfg) keys).1)))
    ]

last_of_three :
    (o ev : List Event) (a b : Event) → o ++ (ev ++ a ∷ b ∷ []) ≡ (o ++ (ev ++ a ∷ [])) ++ b ∷ []
last_of_three o ev a b =
    ap (λ t. o ++ t) (sym (append_assoc ev (a ∷ []) (b ∷ [])))
    ∙ sym (append_assoc o (ev ++ a ∷ []) (b ∷ []))

-- Where the menu just fits above the bottom of the console, and an entry is chosen in it, the last
-- thing that the console is told is to move the cursor to the row under its last one.
pub choose_under_the_last_row :
    (console : Console) (cfg : Config) (keys : List (Option Key)) (l : Layout) (rows i : ℕ)
    → plan (length cfg.entries) console ≡ some l
    → l.origin + height l ≡ rows
    → 1 < length cfg.entries
    → 0 < cfg.timeout
    → (choose console cfg keys).1 ≡ chosen i
    → (ev : List Event) × ((choose console cfg keys).0 ≡ ev ++ move_to rows ∷ [])
unfolding choose
choose_under_the_last_row console cfg keys l rows i placed exact many time e =
    let menu : (leb (length cfg.entries) 1 || cfg.timeout == 0) ≡ false =
      ground (arith, many, time) in
    let run = polls (some l) cfg.entries (start cfg) keys in
    let ended : run.1 ≡ chosen i = rw (menu, placed) at e in
    let under : status_row l + 1 ≡ rows = omega (arith, exact) in
    (
      opening (some l) cfg ++ (run.0 ++ cursor true ∷ []),
      rw (menu, placed)
          (ap (λ n. opening (some l) cfg ++ (run.0 ++ closing (some l) n)) ended
            ∙ last_of_three (opening (some l) cfg) run.0 (cursor true) (move_to (status_row l + 1))
            ∙ ap (λ r. (opening (some l) cfg ++ (run.0 ++ cursor true ∷ [])) ++ move_to r ∷ [])
                under),
    )
