-- ===== src/Logger.antt =====
-- logger/logger.go, logger/value.go and logger/pretty.go. What fmt, time, lipgloss and encoding/json
-- print is a parameter. Handling a record gives the text that is written.
pub mod Pretty
mod Tests
use grpcx.Common.{
  ℕ, zero, suc, String, List, [], ◌∷◌, ◌++◌, Option, none, some, Bool, true, false, if◌then◌else◌,
  str_eq, leb, ◌==◌, ◌||◌, ◌&&◌, not,
}
use Prim.Native.String
use grpcx.Common.Integers.{ℤ, pos, negsuc}
use grpcx.Common.Result.{Result, success, failure}
use grpcx.Common.Text.{◌+++◌, split, join, trim_space, has_prefix}

-- slog.Level is an int: debug is -4, info 0, warn 4, error 8
abbrev pub level_debug : ℤ
level_debug = negsuc 3

abbrev pub level_info : ℤ
level_info = pos 0

abbrev pub leb_int : ℤ → ℤ → Bool
leb_int (pos a) (pos b) = leb a b
leb_int (pos a) (negsuc b) = false
leb_int (negsuc a) (pos b) = true
leb_int (negsuc a) (negsuc b) = leb b a

-- A slog.Value by its kind. `valuer` is a LogValuer, with the value that it resolves to; `stringer` a
-- value of kind Any that implements fmt.Stringer, with its text; `nil_value` holds nil. A group's
-- attributes are a list of their own.
module _ (D F T A : Type 0) where
  mutual
    pub data Value : Type 0 where
      string_value : String → Value
      bool_value : Bool → Value
      duration_value : D → Value
      float64_value : F → Value
      int64_value : ℤ → Value
      uint64_value : ℕ → Value
      time_value : T → Value
      stringer : String → Value
      any_value : A → Value
      nil_value : Value
      group_value : Attrs → Value
      valuer : Value → Value

    pub data Attrs : Type 0 where
      no_attrs : Attrs
      attr : String → Value → Attrs → Attrs

-- the styles of the package lipgloss in use
pub data Style : Type 0 where
  faint message key_style value_style err_key_style err_value_style : Style

pub record Printing : Type 1 where
  pub Duration : Type 0
  pub Float : Type 0
  pub Time : Type 0
  pub AnyValue : Type 0
  pub render : Style → String → String
  pub debug_label : String
  pub info_label : String
  pub warn_label : String
  pub error_label : String
  pub fatal_label : String
  pub level_string : ℤ → String
  pub duration_string : Duration → String
  pub float_g : Float → String
  pub int_d : ℤ → String
  pub uint_d : ℕ → String
  pub time_rfc3339 : Time → String
  pub time_clock : Time → String
  pub any_plus_v : AnyValue → String
  pub json_valid : String → Bool
  pub json_indent : String → Option String

-- parseLevel, where UnmarshalText sets the level, or leaves it at 0 with an error
unfoldable pub parse_level : (String → Option ℤ) → String → ℤ
parse_level unmarshal_text s = elim (unmarshal_text s) [ none ↦ level_info | some l ↦ l ]

-- the handler of a logger
pub data HandlerKind : Type 0 where
  json_handler pretty_handler : ℤ → HandlerKind

-- New, by the environment
unfoldable pub new : (String → Option ℤ) → (String → String) → (String → String) → HandlerKind
unfolding parse_level
new unmarshal_text to_lower getenv =
    let level = parse_level unmarshal_text (getenv "LOG_LEVEL") in
    let enc = to_lower (getenv "LOG_ENCODER") in
    if str_eq enc "json" || not (str_eq (getenv "CI") "")
    then json_handler level
    else pretty_handler level

-- jsonValue.String and LogValue: compact JSON, or the plain value where it cannot be marshalled
unfoldable pub json_string : {V E : Type 0} → (V → Result E String) → (V → String) → V → String
json_string marshal sprint v = elim (marshal v) [ failure err ↦ sprint v | success b ↦ b ]

-- len(s) < 2; a longer text of one code point begins with no brace
abbrev is_short : String → Bool
is_short String.[] = true
is_short (String.◌∷◌ c String.[]) = true
is_short (String.◌∷◌ c (String.◌∷◌ d s)) = false

module _ (R : Printing) where
  open R use {
    Duration, Float, Time, AnyValue, render, debug_label, info_label, warn_label, error_label,
    fatal_label, level_string, duration_string, float_g, int_d, uint_d, time_rfc3339, time_clock,
    any_plus_v, json_valid, json_indent,
  }

  abbrev pub LogValue : Type 0
  LogValue = Value Duration Float Time AnyValue

  abbrev pub LogAttrs : Type 0
  LogAttrs = Attrs Duration Float Time AnyValue

  -- JSON of logger/value.go: a value that resolves to a string, with that string as its text
  unfoldable pub json_value : {V E : Type 0} → (V → Result E String) → (V → String) → V → LogValue
  unfolding json_string
  json_value marshal sprint v = Value.valuer (Value.string_value (json_string marshal sprint v))

  unfoldable pub render_level : ℤ → String
  render_level (negsuc n) = if n == 3 then debug_label else level_string (negsuc n)
  render_level (pos n) =
      if n == 0
      then info_label
      else if n == 4
      then warn_label
      else if n == 8
      then error_label
      else if leb n 8
      then level_string (pos n)
      else fatal_label

  unfoldable pub fmt_value : LogValue → String
  fmt_value (Value.string_value s) = s
  fmt_value (Value.bool_value b) = if b then "true" else "false"
  fmt_value (Value.duration_value d) = duration_string d
  fmt_value (Value.float64_value f) = float_g f
  fmt_value (Value.int64_value n) = int_d n
  fmt_value (Value.uint64_value n) = uint_d n
  fmt_value (Value.time_value t) = time_rfc3339 t
  fmt_value (Value.stringer s) = s
  fmt_value (Value.any_value a) = any_plus_v a
  fmt_value _ = "<nil>"

  unfoldable pub looks_like_json : String → Bool
  unfolding trim_space has_prefix
  looks_like_json s =
      let t = trim_space s in
      if is_short t || not (has_prefix t "{" || has_prefix t "[") then false else json_valid t

  -- the value as it is written, indented if it is JSON
  unfoldable pub displayed : String → String
  unfolding looks_like_json
  displayed val =
      if looks_like_json val
      then elim (json_indent val) [ none ↦ val | some indented ↦ indented ]
      else val
