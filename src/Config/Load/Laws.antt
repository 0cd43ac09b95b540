-- ===== src/Config/Load/Laws.antt =====
-- src/config.rs, `load`: which configuration is loaded from which file.
use bang.Common.{
  ℕ, ◌<◌, ◌≤◌, ◌*◌, ◌≡◌, ◌≢◌, ◌⊎◌, refl, sym, ap, subst, ◌∙◌, inl, inr, true, false, Option, none,
  some, List, ◌++◌, arith, All, length, Bool-cases, ◌>>=◌,
}
use bang.Common.Text.{Text}
use bang.Common.Text.Utf8.{is_scalar, utf8_bytes, from_utf8}
use bang.Common.Text.Utf8.Back.{from_utf8_back}
use bang.Common.Text.Utf8.Forth.{from_utf8-utf8_bytes, from_utf8_refused}
use bang.Config.{Config, parse}
use bang.Config.Load.{is_unsuitable, parsed_text, of_size, load}
use bang.Config.Print.{print, IsPrintable}
use bang.Config.Print.RoundTrip.{parse-print}
use bang.Uefi.{FileReader}

abbrev pub AreCharacters : Text → Type 0
AreCharacters t = All (λ c. is_scalar c ≡ true) t

-- What `load` gives, and why. `front` is what the one read gave of the file.
pub data IsLoaded (reader : FileReader) (path : Text → Option Text)
    : Option (ℕ × reader.F) → Option Config → Type 0 where
  missing : IsLoaded reader path none none
  unsuitable :
      (size : ℕ) (f : reader.F)
      → (size ≡ 0) ⊎ (64 * 1024 < size)
      → IsLoaded reader path (some (size, f)) none
  unreadable :
      (size : ℕ) (f f' : reader.F)
      → reader.read_some f size ≡ (none, f')
      → IsLoaded reader path (some (size, f)) none
  not_text :
      (size : ℕ) (f : reader.F) (front rest : List ℕ)
      → reader.left f ≡ front ++ rest
      → length front ≤ size
      → ((t : Text) → AreCharacters t → utf8_bytes t ≢ front)
      → IsLoaded reader path (some (size, f)) none
  loaded :
      (size : ℕ) (f : reader.F) (t : Text) (rest : List ℕ)
      → 0 < size
      → size ≤ 64 * 1024
      → reader.left f ≡ utf8_bytes t ++ rest
      → length (utf8_bytes t) ≤ size
      → AreCharacters t
      → IsLoaded reader path (some (size, f)) (some (parse path t))

module _ (reader : FileReader) (path : Text → Option Text) (size : ℕ) (f : reader.F) where
  of_size-small :
      is_unsuitable size ≡ false
      → of_size path reader.read_some size f
        ≡ ((reader.read_some f size).0 >>= λ buf. parsed_text path (from_utf8 buf))
  of_size-small h = rw h refl

  text-IsLoaded :
      (front : List ℕ) (f' : reader.F) (o : Option Text)
      → from_utf8 front ≡ o
      → is_unsuitable size ≡ false
      → reader.read_some f size ≡ (some front, f')
      → IsLoaded reader path (some (size, f)) (parsed_text path o)
  text-IsLoaded front f' none e h got =
      let (all, fits) = reader.gives_next f f' size front got in
      not_text size f front (reader.left f') all fits (λ t a. from_utf8_refused front t e a)
  text-IsLoaded front f' (some t) e h got =
      let (all, fits) = reader.gives_next f f' size front got in
      let (bytes, chars) = from_utf8_back front t e in
      loaded size f t (reader.left f') (ground (arith, h)) (ground (arith, h))
        (all ∙ ap (λ bs. bs ++ reader.left f') (sym bytes))
        (subst (λ bs. length bs ≤ size) (sym bytes) fits) chars

  read-IsLoaded :
      (answer : Option (List ℕ)) (f' : reader.F)
      → reader.read_some f size ≡ (answer, f')
      → is_unsuitable size ≡ false
      → IsLoaded reader path (some (size, f)) (answer >>= λ buf. parsed_text path (from_utf8 buf))
  read-IsLoaded none f' got h = unreadable size f f' got
  read-IsLoaded (some front) f' got h = text-IsLoaded front f' (from_utf8 front) refl h got

  of_size-IsLoaded : IsLoaded reader path (some (size, f)) (of_size path reader.read_some size f)
  of_size-IsLoaded = elim (Bool-cases (is_unsuitable size)) [
    | inl bad ↦ rw bad (unsuitable size f (ground (arith, bad)))
    | inr good ↦ rw good (read-IsLoaded _ (reader.read_some f size).1 refl good)
  ]

-- A file is loaded, or not, for one reason: it is missing, of no size or more than 64 KiB, cannot
-- be read, or what one read gives of it is not UTF-8; else the configuration is what `parse` gives
-- for the characters whose bytes that read gave, which are the front of the file.
pub load-IsLoaded :
    (reader : FileReader) (path : Text → Option Text) (opened : Option (ℕ × reader.F))
    → IsLoaded reader path opened (load path reader.read_some opened)
unfolding load
load-IsLoaded reader path none = missing
load-IsLoaded reader path (some (size, f)) = of_size-IsLoaded reader path size f

-- A file of the right size with the bytes of a printed configuration, which one read gives whole,
-- is loaded as that configuration.
pub load-print :
    (reader : FileReader) (path : Text → Option Text) (c : Config) (size : ℕ) (f f' : reader.F)
    → IsPrintable path c
    → AreCharacters (print c)
    → 0 < size
    → size ≤ 64 * 1024
    → reader.read_some f size ≡ (some (utf8_bytes (print c)), f')
    → load path reader.read_some (some (size, f)) ≡ some c
unfolding load
load-print reader path c size f f' h chars some_size small got =
    let good : is_unsuitable size ≡ false = ground arith in
    of_size-small reader path size f good
    ∙ ap (λ (r : Option (List ℕ) × reader.F). r.0 >>= λ buf. parsed_text path (from_utf8 buf)) got
    ∙ ap (parsed_text path) (from_utf8-utf8_bytes (print c) chars)
    ∙ ap some (parse-print path c h)
