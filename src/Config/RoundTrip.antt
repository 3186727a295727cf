-- ===== src/Config/RoundTrip.antt =====
-- A file of settings and comments, as an operator writes it, is read back by fromEnvFile of config.go.
use gubernator.Config.EnvFile.{
  Text, Setting, Outcome, EnvRead, split, split_once, trim_space, is_skipped, settable, read_line,
  read_lines, from_env_file,
}
use gubernator.Prelude.{
  ℕ, suc, List, [], ◌∷◌, ◌++◌, some, true, false, ◌==◌, ==_iff, ◌≡◌, refl, ap, ◌∙◌, arith, All,
  All-append,
}

-- A line of the file.
pub data Line : Type 0 where
  setting : Text → Text → Line
  skipped : Text → Line

abbrev pub line_text : Line → Text
line_text (setting key value) = key ++ (b'=' ∷ value)
line_text (skipped text) = text

abbrev pub file_text : List Line → Text
file_text [] = []
file_text (l ∷ ls) = line_text l ++ (b'\n' ∷ file_text ls)

abbrev pub settings_of : List Line → List Setting
settings_of [] = []
settings_of (setting key value ∷ ls) = (key, value) ∷ settings_of ls
settings_of (skipped text ∷ ls) = settings_of ls

abbrev Without : ℕ → Text → Type 0
Without c text = All (λ d. (d == c) ≡ false) text

-- A key or a value that reads as it is written: no line break, no white space at its ends.
pub record IsPlain (text : Text) : Type 0 where
  pub one_line : Without b'\n' text
  pub trimmed : trim_space text ≡ text

abbrev pub IsLine : Line → Type 0
IsLine (setting key value) =
    IsPlain key
    × IsPlain value
    × Without b'=' key
    × (is_skipped (key ++ (b'=' ∷ value)) ≡ false)
    × (settable key value ≡ true)
IsLine (skipped text) = Without b'\n' text × (is_skipped text ≡ true)

-- The text up to a separator that it does not have is the first part.
split_first :
    (sep : ℕ) (text rest : Text)
    → Without sep text
    → split sep (text ++ (sep ∷ rest)) ≡ text ∷ split sep rest
unfolding split
split_first sep [] rest w = let here : (sep == sep) ≡ true = (==_iff sep sep).1 refl in rw here refl
split_first sep (c ∷ text) rest w = rw (w.0) (rw (split_first sep text rest w.1) refl)

split_once-first :
    (sep : ℕ) (key value : Text)
    → Without sep key
    → split_once sep (key ++ (sep ∷ value)) ≡ some (key, value)
unfolding split_once
split_once-first sep [] value w =
    let here : (sep == sep) ≡ true = (==_iff sep sep).1 refl in rw here refl
split_once-first sep (c ∷ key) value w = rw (w.0) (rw (split_once-first sep key value w.1) refl)

Without-line : (l : Line) → IsLine l → Without b'\n' (line_text l)
Without-line (setting key value) h =
    All-append (λ d. (d == b'\n') ≡ false) key (b'=' ∷ value) h.0.one_line
      (ground arith, h.1.one_line)
Without-line (skipped text) h = h.0

read_setting :
    (i : ℕ) (key value : Text) (rest : EnvRead)
    → IsLine (setting key value)
    → read_line i (line_text (setting key value)) rest
      ≡ record rest { settings = (key, value) ∷ rest.settings }
unfolding read_line
read_setting i key value rest h =
    rw (split_once-first b'=' key value h.2, read_line)
      (rw (h.0.trimmed, h.1.trimmed) (rw (h.4) refl))

read_lines_lem :
    (i : ℕ) (ls : List Line)
    → All IsLine ls
    → read_lines i (split b'\n' (file_text ls))
      ≡ record { settings = settings_of ls; outcome = Outcome.finished }
unfolding read_lines split
read_lines_lem i [] h = refl
read_lines_lem i (setting key value ∷ ls) h =
    let line = line_text (setting key value) in
    let parts = split_first b'\n' line (file_text ls) (Without-line (setting key value) h.0) in
    ap (λ (l : List Text). read_lines i l) parts
    ∙ rw (h.0.3, read_lines)
        (rw (read_lines_lem (suc i) ls h.1) (
          read_setting i key value
            (record { settings = settings_of ls; outcome = Outcome.finished }) h.0))
read_lines_lem i (skipped text ∷ ls) h =
    let parts = split_first b'\n' text (file_text ls) h.0.0 in
    ap (λ (l : List Text). read_lines i l) parts
    ∙ rw (h.0.1, read_lines) (read_lines_lem (suc i) ls h.1)

-- On a file of lines that are each either skipped or a key and a value, without line breaks,
-- without Unicode white space at their ends, without an equals sign in the key, that the system
-- accepts, fromEnvFile finishes and sets exactly these keys to these values, in their order.
pub from_env_file-file_text :
    (ls : List Line)
    → All IsLine ls
    → from_env_file (file_text ls)
      ≡ record { settings = settings_of ls; outcome = Outcome.finished }
unfolding from_env_file
from_env_file-file_text ls h = read_lines_lem 0 ls h
