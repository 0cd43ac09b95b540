-- ===== src/Menu/Unattended.antt =====
-- src/menu.rs: the countdown. With no key the default boots after the timeout, and not before; any
-- key stops the clock for good.
use bang.Common.{
  ℕ, zero, suc, ◌+◌, ◌-◌, ◌*◌, ◌%◌, ◌≤◌, ◌<◌, ◌≡◌, ◌≢◌, ◌⊎◌, refl, sym, subst, inl, inr, true,
  false, not, Option, none, some, List, [], ◌++◌, arith, length, replicate, Bool-cases, leb, ◌==◌,
  ◌||◌, if◌then◌else◌,
}
use bang.Config.{Entry, Config}
use bang.Menu.{
  after, Event, Layout, Console, Key, up, down, special, printable, State, Next, chosen, again,
  press, on_key, tick, poll, polls, start, choose, plan,
}

-- The rounds with no key that are left of a countdown.
abbrev rounds_left : State → ℕ
rounds_left s = 10 * s.remaining - s.ticks % 10

record IsCounting (s : State) : Type 0 where
  on : s.counting ≡ true
  left : 1 ≤ s.remaining

abbrev quiet : ℕ → List (Option Key)
quiet n = replicate n none

module _ (l : Option Layout) (es : List Entry) where
  -- A round with no key takes one off, or was the last.
  data Round (s : State) : Next → Type 0 where
    last : rounds_left s ≡ 1 → Round s (chosen s.selected)
    more :
        {s' : State}
        → IsCounting s'
        → s'.selected ≡ s.selected
        → rounds_left s ≡ suc (rounds_left s')
        → Round s (again s')

  tick-Round : (s : State) → IsCounting s → Round s (tick l es s).1
  unfolding tick
  tick-Round s c = elim (Bool-cases (not ((s.ticks + 1) % 10 == 0))) [
    | inl within ↦
        let p : (s.ticks + 1) % 10 ≢ 0 = ground arith in
        rw within (more (record { on = c.on; left = c.left }) refl (omega (arith, c.left)))
    | inr second ↦
        let p : (s.ticks + 1) % 10 ≡ 0 = ground arith in
        elim (Bool-cases (s.remaining - 1 == 0)) [
          | inl out ↦
              let q : s.remaining - 1 ≡ 0 = ground arith in
              rw (second, out) (last (omega (arith, c.left)))
          | inr left ↦
              let q : s.remaining - 1 ≢ 0 = ground arith in
              rw (second, left)
                (more (record { on = c.on; left = omega arith }) refl (omega (arith, c.left)))
        ]
  ]

  poll-Round : (s : State) → IsCounting s → Round s (poll l es s none).1
  unfolding poll
  poll-Round s c =
      subst
        (λ b.
          let ticked : List Event × Next = tick l es s in
          let still : List Event × Next = ([], again s) in Round s (if b then ticked else still).1)
        (sym c.on) (tick-Round s c)

  -- The loop over rounds with no key: the selection is chosen in the round that the countdown ends.
  data Rounds (s : State) (n : ℕ) : Next → Type 0 where
    ended : rounds_left s ≤ n → Rounds s n (chosen s.selected)
    waiting : {s' : State} → n < rounds_left s → Rounds s n (again s')

  polls-Rounds : (n : ℕ) (s : State) → IsCounting s → Rounds s n (polls l es s (quiet n)).1
  unfolding polls
  polls-Rounds zero s c = waiting (omega (arith, c.left))
  polls-Rounds (suc n) s c =
      next_round (λ s' c'. polls-Rounds n s' c') (poll l es s none).0 (poll l es s none).1
        (poll-Round s c)
    where
      next_round :
          ((s' : State) → IsCounting s' → Rounds s' n (polls l es s' (quiet n)).1)
          → (ev : List Event) (r : Next) → Round s r
          → Rounds s
              (suc n)
              (elim r as (λ _. List Event × Next) [
                | chosen i ↦ (ev, chosen i)
                | again s' ↦ (ev ++ (polls l es s' (quiet n)).0, (polls l es s' (quiet n)).1)
              ]).1
      next_round later ev _ (last e) = ended (omega arith)
      next_round later ev _ (more {s'} c' same e) =
          one_more s' same e (polls l es s' (quiet n)).1 (later s' c')
        where
          one_more :
              (s' : State)
              → s'.selected ≡ s.selected
              → rounds_left s ≡ suc (rounds_left s')
              → (r : Next) → Rounds s' n r
              → Rounds s (suc n) r
          one_more s' same e _ (ended h) = rw same (ended (omega arith))
          one_more s' same e _ (waiting h) = waiting (omega arith)

-- Where there is something to choose and a timeout, and no key is pressed: after ten polls for each
-- second of the timeout, and no fewer, `choose` returns the default; until then it is waiting.
pub choose_unattended :
    (console : Console) (cfg : Config) (n : ℕ)
    → 1 < length cfg.entries
    → 0 < cfg.timeout
    → ((10 * cfg.timeout ≤ n) × ((choose console cfg (replicate n none)).1 ≡ chosen cfg.default))
      ⊎ ((n < 10 * cfg.timeout)
          × ((s : State) × ((choose console cfg (replicate n none)).1 ≡ again s)))
unfolding choose
choose_unattended console cfg n many time =
    let l = plan (length cfg.entries) console in
    let menu : (leb (length cfg.entries) 1 || cfg.timeout == 0) ≡ false = ground arith in
    rw menu (
      outcome (polls l cfg.entries (start cfg) (replicate n none)).1
        (polls-Rounds l cfg.entries n (start cfg) (record { on = refl; left = time })))
  where
    outcome :
        (r : Next)
        → Rounds (plan (length cfg.entries) console) cfg.entries (start cfg) n r
        → ((10 * cfg.timeout ≤ n) × (r ≡ chosen cfg.default))
          ⊎ ((n < 10 * cfg.timeout) × ((s : State) × (r ≡ again s)))
    outcome _ (ended h) = inl (omega arith, refl)
    outcome _ (waiting {s'} h) = inr (omega arith, (s', refl))

-- A round of a stopped clock with no key changes nothing.
poll_stopped :
    (l : Option Layout) (es : List Entry) (s : State)
    → s.counting ≡ false
    → poll l es s none ≡ ([], again s)
unfolding poll
poll_stopped l es s h =
    let ticked : List Event × Next = tick l es s in
    let still : List Event × Next = ([], again s) in
    subst (λ b. ◌≡◌ {A = List Event × Next} (if b then ticked else still) still) (sym h) refl

polls_stopped :
    (l : Option Layout) (es : List Entry) (n : ℕ) (s : State)
    → s.counting ≡ false
    → (polls l es s (quiet n)).1 ≡ again s
unfolding polls
polls_stopped l es zero s h = refl
polls_stopped l es (suc n) s h = rw (poll_stopped l es s h, polls) (polls_stopped l es n s h)

IsStopped : Next → Type 0
IsStopped (chosen i) = Unit
IsStopped (again s) = s.counting ≡ false

on_key-IsStopped :
    (l : Option Layout) (es : List Entry) (s : State) (key : Key)
    → s.counting ≡ false
    → IsStopped (on_key l es s key).1
unfolding on_key press IsStopped
on_key-IsStopped l es s up h = h
on_key-IsStopped l es s down h = h
on_key-IsStopped l es s special h = h
on_key-IsStopped l es s (printable c) h = ground arith

after-IsStopped :
    (l : Option Layout) (es : List Entry) (ev : List Event) (n : Next)
    → IsStopped n
    → IsStopped (after l es (ev, n)).1
unfolding IsStopped
after-IsStopped l es ev (chosen i) h = tt
after-IsStopped l es ev (again s) h =
    let (ev', n) = tick l es s in
    let ticked : List Event × Next = (ev ++ ev', n) in
    let still : List Event × Next = (ev, again s) in
    subst (λ b. IsStopped (if b then ticked else still).1) (sym h) h

-- Once any key was pressed that did not itself end the menu, no number of further rounds without a
-- key ends it: the countdown does not boot out from under whoever is there.
pub key_cancels :
    (l : Option Layout) (es : List Entry) (s s' : State) (key : Key) (n : ℕ)
    → (poll l es s (some key)).1 ≡ again s'
    → (polls l es s' (replicate n none)).1 ≡ again s'
unfolding poll IsStopped
key_cancels l es s s' key n e =
    let stopped = record s { counting = false } in
    let still =
      after-IsStopped l es _ (on_key l es stopped key).1 (on_key-IsStopped l es stopped key refl) in
    polls_stopped l es n s' (subst IsStopped e still)
