-- ===== src/Tests/Menu.antt =====
-- Runs of the menu.
use bang.Common.{
  ◌*◌, ◌<◌, ◌≤◌, ◌≡◌, refl, ◌⊎◌, true, false, none, some, List, [], ◌∷◌, ◌++◌, All, arith,
  replicate,
}
use bang.Common.Text.{Text, codes}
use bang.Config.{Entry, Config, chainload}
use bang.Menu.{
  Event, move_to, plan, Console, up, down, special, printable, State, chosen, again, push_num,
  low_digits, on_key, press, tick, poll, polls, start, choose,
}
use bang.Menu.Choice.{InRange, choose-InRange}
use bang.Menu.Screen.{IsOnScreen, choose-IsOnScreen, choose_under_the_last_row}
use bang.Menu.Unattended.{choose_unattended, key_cancels}

abbrev pub entry : Text → Entry
entry t = record { title = t; target = chainload t none }

abbrev pub three : Config
three = record {
  timeout = 2;
  default = 2;
  autodetect = false;
  entries = entry (codes "A") ∷ entry (codes "B") ∷ entry (codes "C") ∷ [];
}

abbrev pub screen : Console
screen = record { size = some (80, 25); cursor_row = 3; can_move = true }

-- Down from the last entry is the first; enter boots it.
choose-down : (choose screen three (none ∷ some down ∷ some (printable 13) ∷ [])).1 ≡ chosen 0
unfolding choose polls poll on_key press tick
choose-down = refl

choose-digit : (choose screen three (some up ∷ some (printable b'3') ∷ [])).1 ≡ chosen 2
unfolding choose polls poll on_key press tick
choose-digit = refl

push_num-twenty : push_num [] 1209 ≡ codes "1209"
unfolding push_num low_digits
push_num-twenty = refl

choose-InRange_example :
    InRange three.entries (choose screen three (some up ∷ none ∷ some special ∷ [])).1
choose-InRange_example =
    choose-InRange screen three (some up ∷ none ∷ some special ∷ []) (omega arith)

choose_unattended_example :
    ((10 * 2 ≤ 21) × ((choose screen three (replicate 21 none)).1 ≡ chosen 2))
    ⊎ ((21 < 10 * 2) × ((s : State) × ((choose screen three (replicate 21 none)).1 ≡ again s)))
choose_unattended_example = choose_unattended screen three 21 (omega arith) (omega arith)

abbrev cancelled : State
cancelled = record { selected = 1; remaining = 2; counting = false; ticks = 0 }

poll-up : (poll none three.entries (start three) (some up)).1 ≡ again cancelled
unfolding poll on_key
poll-up = refl

key_cancels_example : (polls none three.entries cancelled (replicate 100 none)).1 ≡ again cancelled
key_cancels_example = key_cancels none three.entries (start three) cancelled up 100 poll-up

plan-screen : plan 3 screen ≡ some (record { origin = 3; cols = 80; entries = 3 })
unfolding plan
plan-screen = refl

choose-IsOnScreen_example :
    All (IsOnScreen 80 25) (choose screen three (some up ∷ none ∷ some (printable b'3') ∷ [])).0
choose-IsOnScreen_example =
    choose-IsOnScreen screen three (some up ∷ none ∷ some (printable b'3') ∷ [])
      (record { origin = 3; cols = 80; entries = 3 }) 80 25 refl plan-screen

-- The menu's eight rows end with the console's.
abbrev tight : Console
tight = record { size = some (80, 11); cursor_row = 3; can_move = true }

plan-tight : plan 3 tight ≡ some (record { origin = 3; cols = 80; entries = 3 })
unfolding plan
plan-tight = refl

choose-tight : (choose tight three (some (printable 13) ∷ [])).1 ≡ chosen 2
unfolding choose polls poll on_key press
choose-tight = refl

choose_under_the_last_row_example :
    (ev : List Event) × ((choose tight three (some (printable 13) ∷ [])).0 ≡ ev ++ move_to 11 ∷ [])
choose_under_the_last_row_example =
    choose_under_the_last_row tight three (some (printable 13) ∷ [])
      (record { origin = 3; cols = 80; entries = 3 }) 11 2 plan-tight refl (omega arith)
      (omega arith) choose-tight
