-- ===== src/Config/EnvFile.antt =====
-- fromEnvFile of config.go: a file of lines `NAME=value`, set in the environment one by one. A text
-- is the list of its bytes. os.Setenv is given by what it refuses.
use gubernator.Prelude.{
  ℕ, zero, suc, length, List, [], ◌∷◌, Option, none, some, Bool, true, false, not, ◌&&◌, ◌||◌, ◌==◌,
  if◌then◌else◌,
}

abbrev pub Text : Type 0
Text = List ℕ

-- A variable and its value.
abbrev pub Setting : Type 0
Setting = Text × Text

-- What was set before the end, and how it ended.
pub data Outcome : Type 0 where
  finished : Outcome
  malformed_line : ℕ → Outcome
  not_set : Text → Text → Outcome

pub record EnvRead : Type 0 where
  pub settings : List Setting
  pub outcome : Outcome

-- strings.Split(text, sep) for one byte
unfoldable pub split : ℕ → Text → List Text
split sep [] = [] ∷ []
split sep (c ∷ text) =
    let rest = split sep text in
    if c == sep
    then [] ∷ rest
    else (elim rest [ [] ↦ (c ∷ []) ∷ [] | line ∷ lines ↦ (c ∷ line) ∷ lines ])

-- strings.SplitN(line, "=", 2): the parts, where there are two
unfoldable pub split_once : ℕ → Text → Option Setting
split_once sep [] = none
split_once sep (c ∷ text) =
    let rest = split_once sep text in
    if c == sep
    then some ([], text)
    else (elim rest [ none ↦ none | some (key, value) ↦ some (c ∷ key, value) ])

-- The white space of unicode.IsSpace in UTF-8: U+0009 to U+000D, U+0020, U+0085, U+00A0, U+1680,
-- U+2000 to U+200A, U+2028, U+2029, U+202F, U+205F and U+3000.
abbrev pub spaces : List Text
spaces =
    (9 ∷ [])
    ∷ (10 ∷ [])
    ∷ (11 ∷ [])
    ∷ (12 ∷ [])
    ∷ (13 ∷ [])
    ∷ (32 ∷ [])
    ∷ (0xC2 ∷ 0x85 ∷ [])
    ∷ (0xC2 ∷ 0xA0 ∷ [])
    ∷ (0xE1 ∷ 0x9A ∷ 0x80 ∷ [])
    ∷ (0xE2 ∷ 0x80 ∷ 0x80 ∷ [])
    ∷ (0xE2 ∷ 0x80 ∷ 0x81 ∷ [])
    ∷ (0xE2 ∷ 0x80 ∷ 0x82 ∷ [])
    ∷ (0xE2 ∷ 0x80 ∷ 0x83 ∷ [])
    ∷ (0xE2 ∷ 0x80 ∷ 0x84 ∷ [])
    ∷ (0xE2 ∷ 0x80 ∷ 0x85 ∷ [])
    ∷ (0xE2 ∷ 0x80 ∷ 0x86 ∷ [])
    ∷ (0xE2 ∷ 0x80 ∷ 0x87 ∷ [])
    ∷ (0xE2 ∷ 0x80 ∷ 0x88 ∷ [])
    ∷ (0xE2 ∷ 0x80 ∷ 0x89 ∷ [])
    ∷ (0xE2 ∷ 0x80 ∷ 0x8A ∷ [])
    ∷ (0xE2 ∷ 0x80 ∷ 0xA8 ∷ [])
    ∷ (0xE2 ∷ 0x80 ∷ 0xA9 ∷ [])
    ∷ (0xE2 ∷ 0x80 ∷ 0xAF ∷ [])
    ∷ (0xE2 ∷ 0x81 ∷ 0x9F ∷ [])
    ∷ (0xE3 ∷ 0x80 ∷ 0x80 ∷ [])
    ∷ []

unfoldable pub starts_with : Text → Text → Bool
starts_with [] text = true
starts_with (c ∷ cs) [] = false
starts_with (c ∷ cs) (d ∷ text) = c == d && starts_with cs text

-- The bytes of the white space that a text begins with; no encoding begins another one.
unfoldable pub leading_of : List Text → Text → ℕ
leading_of [] text = 0
leading_of (s ∷ ss) text = if starts_with s text then length s else leading_of ss text

-- The text without the white space before it; the first `left` bytes belong to one that is cut.
unfoldable pub cut_left : ℕ → Text → Text
cut_left left [] = []
cut_left (suc left) (c ∷ text) = cut_left left text
cut_left zero (c ∷ text) = elim (leading_of spaces (c ∷ text)) [
  | zero ↦ c ∷ text
  | suc left ↦ cut_left left text
]

unfoldable pub trim_left : Text → Text
trim_left text = cut_left 0 text

-- From where only white space follows, nothing stays.
unfoldable pub trim_right : Text → Text
trim_right [] = []
trim_right (c ∷ text) = elim (trim_left (c ∷ text)) [ [] ↦ [] | _ ∷ _ ↦ c ∷ trim_right text ]

unfoldable pub trim_space : Text → Text
trim_space text = trim_right (trim_left text)

-- A comment, an empty line, or one that begins with a space or a tab.
abbrev pub is_skipped : Text → Bool
is_skipped [] = true
is_skipped (c ∷ line) = (c == b'#' || c == 32) || c == 9

abbrev has_nul : Text → Bool
has_nul [] = false
has_nul (c ∷ text) = c == 0 || has_nul text

-- os.Setenv fails on an empty name, and on a NUL. A name has no `=` here.
abbrev pub settable : Text → Text → Bool
settable key value =
    (elim key [ [] ↦ false | c ∷ rest ↦ true ]) && not (has_nul key || has_nul value)

abbrev and_setting : Setting → EnvRead → EnvRead
and_setting s r = record r { settings = s ∷ r.settings }

abbrev ends : Outcome → EnvRead
ends o = record { settings = []; outcome = o }

-- A line that is not skipped; `rest` is what the later lines give.
unfoldable pub read_line : ℕ → Text → EnvRead → EnvRead
read_line i line rest = elim (split_once b'=' line) [
  | none ↦ ends (Outcome.malformed_line i)
  | some (key, value) ↦
      let k = trim_space key in
      let v = trim_space value in
      if settable k v then and_setting (k, v) rest else ends (Outcome.not_set key value)
]

unfoldable pub read_lines : ℕ → List Text → EnvRead
read_lines i [] = ends Outcome.finished
read_lines i (line ∷ lines) =
    let rest = read_lines (suc i) lines in if is_skipped line then rest else read_line i line rest

unfoldable pub from_env_file : Text → EnvRead
from_env_file contents = read_lines 0 (split b'\n' contents)
