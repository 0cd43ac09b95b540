-- ===== src/Config/Print/Normal.antt =====
-- src/config.rs: whatever text it reads, the configuration it gives is one that can be printed.
use bang.Common.{
  ◌<◌, ◌^◌, ◌≤◌, ◌≡◌, inl, inr, true, false, Option, some, List, [], ◌∷◌, arith, All, length,
  Bool-cases,
}
use bang.Common.Text.{Text, is_nil, lines}
use bang.Common.Text.Lines.{lines-IsOneLine}
use bang.Config.{Target, Entry, Config, steps, is_filled, retain_filled, finish, parse, initial}
use bang.Config.Laws.{DefaultIsValid, parse-IsValid}
use bang.Config.Print.{print, IsPrintableTarget, IsPrintableEntry, IsPrintable}
use bang.Config.Print.RoundTrip.{parse-print}
use bang.Config.Print.SoFar.{IsSoFar, IsEntrySoFar, IsParseSoFar, steps-IsParseSoFar}

default_small : (c : Config) → DefaultIsValid c → length c.entries ≤ 2 ^ 64 → c.default < 2 ^ 64
default_small c (inl inside) few = omega (arith, inside, few)
default_small c (inr (empty, first)) few = omega (arith, first)

module _ (path : Text → Option Text) (exact : (a p : Text) → path a ≡ some p → p ≡ a) where
  filled-IsPrintableTarget :
      (t : Target) → is_filled t ≡ true → IsSoFar path exact t → IsPrintableTarget path t
  filled-IsPrintableTarget (Target.multiboot kernel modules) f h =
      let full : is_nil kernel ≡ false = ground arith in (h.0 full, full, h.1)
  filled-IsPrintableTarget (Target.chainload p device) f h = h
  filled-IsPrintableTarget (Target.linux kernel initrd cmdline) f h = h

  retain_filled-IsPrintableEntry :
      (es : List Entry)
      → All (IsEntrySoFar path exact) es
      → All (IsPrintableEntry path) (retain_filled es)
  unfolding retain_filled
  retain_filled-IsPrintableEntry [] h = tt
  retain_filled-IsPrintableEntry (e ∷ es) h = elim (Bool-cases (is_filled e.target)) [
    | inl filled ↦ rw filled (
      record {
        has_title = h.0.title_arg;
        has_target = filled-IsPrintableTarget e.target filled h.0.so_far;
      },
      retain_filled-IsPrintableEntry es h.1,
    )
    | inr empty ↦ rw empty (retain_filled-IsPrintableEntry es h.1)
  ]

  initial-IsParseSoFar : IsParseSoFar path exact initial
  initial-IsParseSoFar = record { timeout_word = omega arith; entries_so_far = tt }

  parse-IsParseSoFar : (text : Text) → IsParseSoFar path exact (steps path initial (lines text))
  parse-IsParseSoFar text =
      steps-IsParseSoFar path exact initial (lines text) (lines-IsOneLine text) initial-IsParseSoFar

  -- Whatever the text is, the configuration that it gives can be printed, if a path that the
  -- firmware takes is taken as it is written, and the entries can be numbered in 64 bits.
  pub parse-IsPrintable :
      (text : Text) → length (parse path text).entries ≤ 2 ^ 64 → IsPrintable path (parse path text)
  unfolding parse finish
  parse-IsPrintable text few =
      let so_far = parse-IsParseSoFar text in
      record {
        timeout_word = so_far.timeout_word;
        default_word = default_small (parse path text) (parse-IsValid path text).0 few;
        default_valid = (parse-IsValid path text).0;
        all_entries = retain_filled-IsPrintableEntry _ so_far.entries_so_far;
      }

  -- Reading, printing and reading again gives what the first reading gave, whatever the text is, if
  -- a path that the firmware takes is taken as it is written, and the entries can be numbered in
  -- 64 bits.
  pub parse-print_again :
      (text : Text)
      → length (parse path text).entries ≤ 2 ^ 64
      → parse path (print (parse path text)) ≡ parse path text
  parse-print_again text few = parse-print path (parse path text) (parse-IsPrintable text few)
