-- ===== src/Menu.antt =====
-- src/menu.rs: the menu's layout, its lines, and the loop that polls for keys. What the console is
-- told is a list of events, in order; the keys are what `poll_key` answers, one for each round.
pub mod Choice
pub mod Screen
pub mod Unattended
use bang.Common.{
  ℕ, zero, suc, ◌+◌, ◌-◌, ◌*◌, ◌/◌, ◌%◌, ◌≤◌, ◌^◌, Bool, true, false, not, ◌&&◌, ◌||◌, Option, none,
  some, List, [], ◌∷◌, ◌++◌, ltb, leb, ◌==◌, if◌then◌else◌, length, take, replicate, get_elem?,
}
use bang.Common.Text.{Text, codes}
use bang.Config.{Entry, Config}

-- `set_cursor_position(0, row)` with a text, `println!`, `enable_cursor` and a bare move.
pub data Event : Type 0 where
  line_at : ℕ → Text → Event
  printed : Text → Event
  cursor : Bool → Event
  move_to : ℕ → Event

pub record Layout : Type 0 where
  pub origin : ℕ
  pub cols : ℕ
  pub entries : ℕ

abbrev pub title_row : Layout → ℕ
title_row l = l.origin

abbrev pub entry_row : Layout → ℕ → ℕ
entry_row l i = l.origin + 2 + i

abbrev pub hint_row : Layout → ℕ
hint_row l = l.origin + 3 + l.entries

abbrev pub status_row : Layout → ℕ
status_row l = l.origin + 4 + l.entries

abbrev pub height : Layout → ℕ
height l = 5 + l.entries

-- The text cut to the width and padded with spaces: `line`.
unfoldable pub line : Layout → ℕ → Text → Event
line l row text =
    let shown = take (l.cols - 1) text in
    line_at row (shown ++ replicate (l.cols - 1 - length shown) b' ')

-- What the console says of itself: its size, its cursor's row, and whether it moves the cursor.
pub record Console : Type 0 where
  pub size : Option (ℕ × ℕ)
  pub cursor_row : ℕ
  pub can_move : Bool

abbrev pub fits : ℕ → ℕ → ℕ → Console → Option Layout
fits entries cols rows c =
    let l : Layout = record { origin = c.cursor_row; cols = cols; entries = entries } in
    if ltb cols 20 || ltb rows (c.cursor_row + height l)
    then none
    else if c.can_move
    then some l
    else none

unfoldable pub plan : ℕ → Console → Option Layout
unfolding fits
plan entries c = elim c.size [ none ↦ none | some (cols, rows) ↦ fits entries cols rows c ]

-- The digits of `push_num`, lowest first, on the twenty places of its buffer.
unfoldable pub low_digits : ℕ → ℕ → Text
low_digits zero n = []
low_digits (suc places) n =
    let more = low_digits places (n / 10) in if n == 0 then [] else (b'0' + n % 10) ∷ more

abbrev pub reversed : Text → Text → Text
reversed [] acc = acc
reversed (c ∷ cs) acc = reversed cs (c ∷ acc)

unfoldable pub push_num : Text → ℕ → Text
unfolding low_digits reversed
push_num s n = if n == 0 then s ++ b'0' ∷ [] else s ++ reversed (low_digits 20 n) []

abbrev entry_line : Layout → ℕ → Entry → ℕ → Event
entry_line l selected e i =
    let mark : ℕ = if i == selected then b'>' else b' ' in
    line l (entry_row l i)
      (push_num (codes "     " ++ mark ∷ b' ' ∷ []) (i + 1) ++ (codes ". " ++ e.title))

-- The loop over the entries, from the index `i`.
unfoldable pub entry_lines : Layout → ℕ → List Entry → ℕ → List Event
unfolding entry_line
entry_lines l selected [] i = []
entry_lines l selected (e ∷ es) i = entry_line l selected e i ∷ entry_lines l selected es (i + 1)

abbrev pub title_of : List Entry → ℕ → Text
title_of es i = elim (get_elem? es i) [ none ↦ [] | some e ↦ e.title ]

unfoldable pub countdown : Layout → List Entry → ℕ → ℕ → Event
countdown l es selected remaining = line l (status_row l) (
    push_num (codes "    booting \"" ++ (title_of es selected ++ codes "\" in ")) remaining
    ++ codes "s ...")

unfoldable pub draw : Layout → List Entry → ℕ → List Event
unfolding entry_lines
draw l es selected =
    line l (title_row l) (codes "    Select what to boot:")
    ∷ line l (title_row l + 1) []
    ∷ (entry_lines l selected es 0
        ++ line l (entry_row l (length es)) []
          ∷ line l (hint_row l) (codes "    up/down to move, a number to pick, enter to boot")
          ∷ line l (status_row l) []
          ∷ [])

abbrev scrolling_line : ℕ → Entry → ℕ → Event
scrolling_line selected e i =
    let mark : ℕ = if i == selected then b'>' else b' ' in
    printed (push_num (codes "     " ++ mark ∷ b' ' ∷ []) (i + 1) ++ (codes ". " ++ e.title))

scrolling_lines : ℕ → List Entry → ℕ → List Event
scrolling_lines selected [] i = []
scrolling_lines selected (e ∷ es) i =
    scrolling_line selected e i ∷ scrolling_lines selected es (i + 1)

unfoldable pub render_scrolling : List Entry → ℕ → List Event
unfolding scrolling_lines
render_scrolling es selected =
    printed []
    ∷ printed (codes "    Select what to boot:")
    ∷ printed []
    ∷ (scrolling_lines selected es 0
        ++ printed [] ∷ printed (codes "    up/down to move, a number to pick, enter to boot") ∷ [])

-- `Key` of the `uefi` crate: the two arrows, another special key, or a character.
pub data Key : Type 0 where
  up down special : Key
  printable : ℕ → Key

-- The loop's variables.
pub record State : Type 0 where
  pub selected : ℕ
  pub remaining : ℕ
  pub counting : Bool
  pub ticks : ℕ

-- The end of a round: `break`, or the next round.
pub data Next : Type 0 where
  chosen : ℕ → Next
  again : State → Next

abbrev pub redraw : Option Layout → List Entry → ℕ → List Event
redraw none es selected = render_scrolling es selected
redraw (some l) es selected = entry_lines l selected es 0

abbrev pub cancelled : Option Layout → List Event
cancelled none = printed (codes "    (countdown cancelled)") ∷ []
cancelled (some l) = line l (status_row l) (codes "    (countdown cancelled)") ∷ []

abbrev pub count_line : Option Layout → List Entry → ℕ → ℕ → List Event
count_line none es selected remaining =
    printed (
      codes "    booting \""
      ++ (title_of es selected ++ (codes "\" in " ++ (push_num [] remaining ++ codes "s ..."))))
    ∷ []
count_line (some l) es selected remaining = countdown l es selected remaining ∷ []

abbrev pub select : Option Layout → List Entry → State → ℕ → List Event × Next
select l es s i = (redraw l es i, again (record s { selected = i }))

-- A character: enter boots the selection, a digit that numbers an entry boots that one.
unfoldable pub press : List Entry → State → ℕ → Next
press es s c =
    if c == 13 || c == 10
    then chosen s.selected
    else if leb b'1' c && (leb c b'9' && leb (c - 48) (length es))
    then chosen (c - 48 - 1)
    else again s

unfoldable pub on_key : Option Layout → List Entry → State → Key → List Event × Next
unfolding press
on_key l es s up = select l es s (if s.selected == 0 then length es - 1 else s.selected - 1)
on_key l es s down = select l es s ((s.selected + 1) % length es)
on_key l es s special = ([], again s)
on_key l es s (printable c) = ([], press es s c)

-- The tenth of a second that passes in a round while the countdown runs.
unfoldable pub tick : Option Layout → List Entry → State → List Event × Next
tick l es s =
    let s' = record s { ticks = s.ticks + 1 } in
    let remaining = s.remaining - 1 in
    if not (s'.ticks % 10 == 0)
    then ([], again s')
    else if remaining == 0
    then ([], chosen s.selected)
    else (count_line l es s.selected remaining, again (record s' { remaining = remaining }))

abbrev after : Option Layout → List Entry → List Event × Next → List Event × Next
after l es (ev, chosen i) = (ev, chosen i)
after l es (ev, again s) =
    let (ev', n) = tick l es s in if s.counting then (ev ++ ev', n) else (ev, again s)

abbrev pub pressed : Option Layout → List Entry → State → Key → List Event × Next
pressed l es s key =
    let (ev, n) = on_key l es (record s { counting = false }) key in
    ((if s.counting then cancelled l else []) ++ ev, n)

-- One round of the loop, with what `poll_key` answered.
unfoldable pub poll : Option Layout → List Entry → State → Option Key → List Event × Next
unfolding on_key tick
poll l es s none = after l es ([], again s)
poll l es s (some key) = after l es (pressed l es s key)

-- The rounds for a list of answers; `again` at the end means that the loop is still waiting.
unfoldable pub polls : Option Layout → List Entry → State → List (Option Key) → List Event × Next
unfolding poll
polls l es s [] = ([], again s)
polls l es s (k ∷ ks) =
    let (ev, n) = poll l es s k in
    elim n [
      | chosen i ↦ (ev, chosen i)
      | again s' ↦ let (ev', n') = polls l es s' ks in (ev ++ ev', n')
    ]

abbrev pub start : Config → State
start cfg = record { selected = cfg.default; remaining = cfg.timeout; counting = true; ticks = 0 }

abbrev pub opening : Option Layout → Config → List Event
opening none cfg = render_scrolling cfg.entries cfg.default
opening (some l) cfg =
    cursor false
    ∷ (draw l cfg.entries cfg.default ++ countdown l cfg.entries cfg.default cfg.timeout ∷ [])

abbrev pub closing : Option Layout → Next → List Event
closing none n = []
closing (some l) (again s) = []
closing (some l) (chosen i) = cursor true ∷ move_to (status_row l + 1) ∷ []

-- `choose`: at once if there is nothing to choose between or no time to, else the menu.
unfoldable pub choose : Console → Config → List (Option Key) → List Event × Next
unfolding plan polls draw
choose console cfg keys =
    let l = plan (length cfg.entries) console in
    let (ev, n) = polls l cfg.entries (start cfg) keys in
    if leb (length cfg.entries) 1 || cfg.timeout == 0
    then ([], chosen cfg.default)
    else (opening l cfg ++ (ev ++ closing l n), n)
