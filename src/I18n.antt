-- ===== src/I18n.antt =====
-- i18n/i18n.go: translations by language and code, with a fallback language and templates.
pub mod Translate
pub mod Loading
mod Tests
use Prim.Native.Char.{code}
use Prim.Native.String
use grpcx.Common.{
  ℕ, String, List, [], ◌∷◌, ◌≡◌, Option, none, some, Map, lookup, store, Bool, true, false,
  if◌then◌else◌, str_eq, string_equality, length, ◌==◌, ◌&&◌, ◌||◌, not,
}
use grpcx.Common.Result.{Result, success, failure, ◌>>=◌}
use grpcx.Platform.{Platform}

pub record Localizer : Type 0 where
  pub translations : Map String (Map String String)
  pub fallback : String

-- New
unfoldable pub new_localizer : String → Localizer
new_localizer fallback = record { translations = []; fallback = fallback }

-- m[key] of a map with string values
abbrev pub or_empty_text : Option String → String
or_empty_text none = ""
or_empty_text (some s) = s

fallback_text : Option (Map String String) → String → String
unfolding lookup
fallback_text none key = ""
fallback_text (some m) key = or_empty_text (lookup key m)

-- the text of the requested language, `none` where the code goes on to the fallback
unfoldable pub text_in : Option (Map String String) → String → Option String
unfolding lookup
text_in none key = none
text_in (some m) key = lookup key m

-- Localizer.lookup
unfoldable pub lookup_text : Localizer → String → String → String
unfolding fallback_text text_in
lookup_text l key lang = elim (text_in (lookup lang l.translations) key) [
  | some s ↦ s
  | none ↦
      if not (str_eq lang l.fallback)
      then fallback_text (lookup l.fallback l.translations) key
      else ""
]

-- text/template: Parse and Execute, `none` for their errors. A file's YAML is decoded by
-- gopkg.in/yaml.v3.
pub record TemplatePackage (Any : Type 0) : Type 1 where
  pub Template : Type 0
  pub parse_template : String → Option Template
  pub execute : Template → Map String Any → Option String

module _ {Any : Type 0} (T : TemplatePackage Any) where
  open T use {parse_template, execute}

  -- the message, rendered where there is data and the template works
  unfoldable pub render : String → Option (Map String Any) → String
  render msg none = msg
  render msg (some data_of) = if length data_of == 0 then msg else elim (parse_template msg) [
    | none ↦ msg
    | some tmpl ↦ elim (execute tmpl data_of) [ none ↦ msg | some text ↦ text ]
  ]

  unfoldable pub translate : Localizer → String → Option (Map String Any) → String → String
  unfolding lookup_text render
  translate l key data_of lang =
      let msg = lookup_text l key lang in if str_eq msg "" then key else render msg data_of

-- filepath.Ext of a name: from its last dot on, if no slash comes after it
has_slash : String → Bool
has_slash String.[] = false
has_slash (String.◌∷◌ c s) = code c == b'/' || has_slash s

unfoldable pub ext : String → String
unfolding has_slash
ext String.[] = ""
ext (String.◌∷◌ c s) =
    let rest = ext s in
    if not (str_eq rest "")
    then rest
    else if code c == b'.' && not (has_slash s)
    then String.◌∷◌ c s
    else ""

-- strings.TrimSuffix
unfoldable pub trim_suffix : String → String → String
trim_suffix String.[] suffix = ""
trim_suffix (String.◌∷◌ c s) suffix =
    let rest = trim_suffix s suffix in
    if str_eq (String.◌∷◌ c s) suffix then "" else String.◌∷◌ c rest

pub record DirEntry : Type 0 where
  pub name : String
  pub is_dir : Bool

-- The file system and the YAML decoder, with errors of their own.
pub record Sources (Failure : Type 0) : Type 0 where
  pub read_dir : Result Failure (List DirEntry)
  pub read_file : String → Result Failure String
  pub unmarshal : String → Result Failure (Map String String)

-- `entry.IsDir()` and the test on the extension: whether the loop reads the file
unfoldable pub is_translation : DirEntry → Bool
unfolding ext
is_translation entry =
    not entry.is_dir && (str_eq (ext entry.name) ".yaml" || str_eq (ext entry.name) ".yml")

module _ {Failure : Type 0} (fsys : Sources Failure) where
  open fsys use {read_dir, read_file, unmarshal}

  abbrev pub read_translations : String → Result Failure (Map String String)
  read_translations name = do text ← read_file name; unmarshal text

  load_entries :
      Map String (Map String String)
      → List DirEntry
      → Result Failure (Map String (Map String String))
  unfolding store is_translation
  load_entries translations [] = success translations
  load_entries translations (entry ∷ entries) =
      let rest = load_entries translations entries in
      let loaded : Result Failure (Map String (Map String String)) = (do
        m ← read_translations entry.name
        load_entries (store (trim_suffix entry.name (ext entry.name)) m translations) entries) in
      if is_translation entry then loaded else rest

  unfoldable pub new_from_fs : String → Result Failure Localizer
  unfolding load_entries
  new_from_fs fallback = do
    entries ← read_dir
    translations ← load_entries [] entries
    success (record { translations = translations; fallback = fallback })
