-- ===== src/Config/Print/RoundTrip.antt =====
-- src/config.rs, `parse`, on a printed configuration.
use bang.Common.{
  ℕ, ◌≡◌, refl, ap, ◌∙◌, inl, inr, Bool, true, false, Option, none, some, List, [], ◌∷◌, arith, All,
  All-append, leb, if◌then◌else◌, length,
}
use bang.Common.Text.{Text, codes, is_nil, is_whitespace, parse_u64}
use bang.Common.Text.Lines.{IsPlainLine, lines-unlines}
use bang.Config.{
  Target, Entry, Config, Parse, apply, steps, is_filled, retain_filled, finish, parse, initial,
}
use bang.Config.Laws.{DefaultIsValid, IsBootable}
use bang.Config.Print.{
  option_lines, target_lines, lines_of_entry, lines_of_entries, on_off, printed_lines, print, IsArg,
  IsOptionalPath, IsPrintableTarget, IsPrintableEntry, IsPrintable,
}
use bang.Config.Print.Numbers.{IsDigit, push_num-IsDigit, parse_u64-push_num}
use bang.Config.Print.Step.{is_word, is_word-IsArg, step-directive_line, directive_line-IsPlainLine}
use bang.Config.Print.Reading.{steps-cons, steps-lines_of_entries}
use bang.Menu.{push_num}

IsDigit-is_word : (s : Text) → All IsDigit s → is_word s ≡ true
unfolding is_whitespace
IsDigit-is_word [] h = refl
IsDigit-is_word (c ∷ s) h = rw (IsDigit-is_word s h.1) (ground (arith, h.0))

push_num-IsArg : (n : ℕ) → IsArg (push_num [] n)
push_num-IsArg n =
    is_word-IsArg (push_num [] n) (IsDigit-is_word (push_num [] n) (push_num-IsDigit n))

on_off-IsArg : (b : Bool) → IsArg (on_off b)
unfolding is_whitespace
on_off-IsArg true = is_word-IsArg (on_off true) refl
on_off-IsArg false = is_word-IsArg (on_off false) refl

apply-autodetect :
    (path : Text → Option Text) (b : Bool) (p : Parse)
    → apply path (codes "autodetect") (on_off b) p
      ≡ record p { cfg = record p.cfg { autodetect = b } }
unfolding apply
apply-autodetect path true p = refl
apply-autodetect path false p = refl

apply-timeout :
    (path : Text → Option Text) (arg : Text) (n : ℕ) (p : Parse)
    → parse_u64 arg ≡ some n
    → apply path (codes "timeout") arg p ≡ record p { cfg = record p.cfg { timeout = n } }
unfolding apply
apply-timeout path arg n p e = rw e refl

apply-default :
    (path : Text → Option Text) (arg : Text) (n : ℕ) (p : Parse)
    → parse_u64 arg ≡ some n
    → apply path (codes "default") arg p ≡ record p { cfg = record p.cfg { default = n } }
unfolding apply
apply-default path arg n p e = rw e refl

steps-printed_lines :
    (path : Text → Option Text) (c : Config)
    → IsPrintable path c
    → steps path initial (printed_lines c) ≡ record { cfg = c; default_title = none }
unfolding printed_lines is_whitespace
steps-printed_lines path c h =
    steps-cons path _ _ _
      (step-directive_line path _ (codes "timeout") (push_num [] c.timeout) refl refl
          (push_num-IsArg c.timeout)
        ∙ apply-timeout path _ c.timeout _ (parse_u64-push_num c.timeout h.timeout_word))
      (steps-cons path _ _ _
        (step-directive_line path _ (codes "autodetect") (on_off c.autodetect) refl refl
            (on_off-IsArg c.autodetect)
          ∙ apply-autodetect path c.autodetect _)
        (steps-cons path _ _ _
          (step-directive_line path _ (codes "default") (push_num [] c.default) refl refl
              (push_num-IsArg c.default)
            ∙ apply-default path _ c.default _ (parse_u64-push_num c.default h.default_word))
          (steps-lines_of_entries path _ c.entries h.all_entries)))

retain_filled_bootable : (es : List Entry) → All IsBootable es → retain_filled es ≡ es
unfolding retain_filled
retain_filled_bootable [] h = refl
retain_filled_bootable (e ∷ es) h = rw (h.0, retain_filled_bootable es h.1) refl

IsPrintableTarget-is_filled :
    (path : Text → Option Text) (t : Target) → IsPrintableTarget path t → is_filled t ≡ true
IsPrintableTarget-is_filled path (Target.multiboot kernel modules) h = rw h.1 refl
IsPrintableTarget-is_filled path (Target.chainload q device) h = refl
IsPrintableTarget-is_filled path (Target.linux kernel initrd cmdline) h = refl

All-IsBootable :
    (path : Text → Option Text) (es : List Entry)
    → All (IsPrintableEntry path) es
    → All IsBootable es
All-IsBootable path [] h = tt
All-IsBootable path (e ∷ es) h =
    (IsPrintableTarget-is_filled path e.target h.0.has_target, All-IsBootable path es h.1)

clamp-valid :
    (c : Config)
    → DefaultIsValid c
    → (if leb (length c.entries) c.default then 0 else c.default) ≡ c.default
clamp-valid c (inl inside) = ground (arith, inside)
clamp-valid c (inr (empty, first)) = ground (arith, first)

finish-lem :
    (c : Config)
    → DefaultIsValid c
    → All IsBootable c.entries
    → finish (record { cfg = c; default_title = none }) ≡ c
unfolding finish
finish-lem c valid bootable =
    rw (retain_filled_bootable c.entries bootable)
      (ap (λ d. record c { default = d }) (clamp-valid c valid))

option_lines-IsPlainLine :
    (path : Text → Option Text) (d : Text) (o : Option Text)
    → is_word d ≡ true
    → is_nil d ≡ false
    → IsOptionalPath path o
    → All IsPlainLine (option_lines d o)
option_lines-IsPlainLine path d none w full h = tt
option_lines-IsPlainLine path d (some arg) w full h =
    (directive_line-IsPlainLine d arg w full h.is_arg, tt)

target_lines-IsPlainLine :
    (path : Text → Option Text) (t : Target)
    → IsPrintableTarget path t
    → All IsPlainLine (target_lines t)
unfolding is_whitespace
target_lines-IsPlainLine path (Target.multiboot kernel modules) (k, filled, m) = (
  directive_line-IsPlainLine (codes "multiboot") kernel refl refl k.is_arg,
  option_lines-IsPlainLine path (codes "modules") modules refl refl m,
)
target_lines-IsPlainLine path (Target.chainload q device) (k, nowhere) =
    (directive_line-IsPlainLine (codes "chainload") q refl refl k.is_arg, tt)
target_lines-IsPlainLine path (Target.linux kernel initrd cmdline) (k, i, o) = (
  directive_line-IsPlainLine (codes "linux") kernel refl refl k.is_arg,
  All-append IsPlainLine (option_lines (codes "initrd") initrd) _
      (option_lines-IsPlainLine path (codes "initrd") initrd refl refl i)
      (directive_line-IsPlainLine (codes "options") cmdline refl refl o, tt),
)

lines_of_entries-IsPlainLine :
    (path : Text → Option Text) (es : List Entry)
    → All (IsPrintableEntry path) es
    → All IsPlainLine (lines_of_entries es)
unfolding is_whitespace
lines_of_entries-IsPlainLine path [] h = tt
lines_of_entries-IsPlainLine path (e ∷ es) h =
    All-append IsPlainLine (lines_of_entry e) (lines_of_entries es)
      (
        directive_line-IsPlainLine (codes "entry") e.title refl refl h.0.has_title,
        target_lines-IsPlainLine path e.target h.0.has_target,
      )
      (lines_of_entries-IsPlainLine path es h.1)

printed_lines-IsPlainLine :
    (path : Text → Option Text) (c : Config)
    → IsPrintable path c
    → All IsPlainLine (printed_lines c)
unfolding printed_lines is_whitespace
printed_lines-IsPlainLine path c h =
    let entries = lines_of_entries-IsPlainLine path c.entries h.all_entries in
    let default =
      directive_line-IsPlainLine (codes "default") _ refl refl (push_num-IsArg c.default) in
    let switch =
      directive_line-IsPlainLine (codes "autodetect") _ refl refl (on_off-IsArg c.autodetect) in
    let timeout =
      directive_line-IsPlainLine (codes "timeout") _ refl refl (push_num-IsArg c.timeout) in
    (timeout, (switch, (default, entries)))

-- A configuration that can be printed is read back from its printed form as it was: `parse` gives
-- every field of it, and its entries in their order.
pub parse-print :
    (path : Text → Option Text) (c : Config) → IsPrintable path c → parse path (print c) ≡ c
unfolding parse print
parse-print path c h =
    ap (λ ls. finish (steps path initial ls))
      (lines-unlines (printed_lines c) (printed_lines-IsPlainLine path c h))
    ∙ ap finish (steps-printed_lines path c h)
    ∙ finish-lem c h.default_valid (All-IsBootable path c.entries h.all_entries)
