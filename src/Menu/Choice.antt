-- ===== src/Menu/Choice.antt =====
-- src/menu.rs: what `choose` returns is the index of an entry.
use bang.Common.{
  ◌<◌, inl, inr, true, false, Option, none, some, List, [], ◌∷◌, ◌++◌, arith, length, Bool-cases,
  leb, ◌==◌, ◌||◌,
}
use bang.Config.{Entry, Config}
use bang.Menu.{
  after, Event, Layout, Console, Key, up, down, special, printable, State, Next, chosen, again,
  press, on_key, tick, poll, polls, start, choose, plan,
}

-- The index chosen, or the selection of the next round, is that of an entry.
abbrev pub InRange : List Entry → Next → Type 0
InRange es (chosen i) = i < length es
InRange es (again s) = s.selected < length es

module _ (l : Option Layout) (es : List Entry) where
  on_key-InRange :
      (s : State) (key : Key) → s.selected < length es → InRange es (on_key l es s key).1
  unfolding on_key press
  on_key-InRange s up h = ground arith
  on_key-InRange s down h = ground arith
  on_key-InRange s special h = h
  on_key-InRange s (printable c) h = ground arith

  tick-InRange : (s : State) → s.selected < length es → InRange es (tick l es s).1
  unfolding tick
  tick-InRange s h = ground arith

  after-InRange : (ev : List Event) (n : Next) → InRange es n → InRange es (after l es (ev, n)).1
  after-InRange ev (chosen i) h = h
  after-InRange ev (again s) h = elim (Bool-cases s.counting) [
    | inl running ↦ rw running (tick-InRange (record s { counting = true }) h)
    | inr stopped ↦ rw stopped h
  ]

  poll-InRange :
      (s : State) (key : Option Key) → s.selected < length es → InRange es (poll l es s key).1
  unfolding poll
  poll-InRange s none h = after-InRange [] (again s) h
  poll-InRange s (some key) h =
      let stopped = record s { counting = false } in
      after-InRange _ (on_key l es stopped key).1 (on_key-InRange stopped key h)

  polls-InRange :
      (s : State) (keys : List (Option Key))
      → s.selected < length es
      → InRange es (polls l es s keys).1
  unfolding polls
  polls-InRange s [] h = h
  polls-InRange s (key ∷ keys) h =
      next_round (λ s' r. polls-InRange s' keys r) (poll l es s key).0 (poll l es s key).1
        (poll-InRange s key h)
    where
      next_round :
          ((s' : State) → s'.selected < length es → InRange es (polls l es s' keys).1)
          → (ev : List Event) (n : Next) → InRange es n
          → InRange es
              (elim n as (λ _. List Event × Next) [
                | chosen i ↦ (ev, chosen i)
                | again s' ↦ (ev ++ (polls l es s' keys).0, (polls l es s' keys).1)
              ]).1
      next_round later ev (chosen i) r = r
      next_round later ev (again s') r = later s' r

-- With the default an index of the entries, whatever the console and the keys: the entry chosen is
-- one of them, and so is the selection while the menu waits.
pub choose-InRange :
    (console : Console) (cfg : Config) (keys : List (Option Key))
    → cfg.default < length cfg.entries
    → InRange cfg.entries (choose console cfg keys).1
unfolding choose
choose-InRange console cfg keys h =
    elim (Bool-cases (leb (length cfg.entries) 1 || cfg.timeout == 0)) [
      | inl at_once ↦ rw at_once h
      | inr menu ↦
          rw menu (polls-InRange (plan (length cfg.entries) console) cfg.entries (start cfg) keys h)
    ]
