-- ===== src/Logger/Pretty.antt =====
-- The pretty handler of logger/pretty.go, and what it writes.
pub mod Layout
use grpcx.Common.{ℕ, String, List, [], ◌∷◌, ◌++◌, Bool, true, false, if◌then◌else◌, str_eq, ◌||◌}
use grpcx.Common.Integers.{ℤ}
use grpcx.Common.Text.{◌+++◌, split, join}
use grpcx.Logger.{
  Value, Attrs, string_value, bool_value, duration_value, float64_value, int64_value, uint64_value,
  time_value, stringer, any_value, nil_value, group_value, valuer, no_attrs, attr, Style, faint,
  message, key_style, value_style, err_key_style, err_value_style, Printing, LogValue, LogAttrs,
  render_level, fmt_value, displayed, leb_int,
}

abbrev newline : ℕ
newline = 10

module _ (R : Printing) where
  open R use {render, Time, time_clock}

  -- the key after the groups
  abbrev pub full_key : List String → String → String
  full_key [] key = key
  full_key (g ∷ groups) key = join (g ∷ groups) "." +++ "." +++ key

  -- the lines after the first
  abbrev pub more_lines : Style → List String → String
  more_lines vs [] = ""
  more_lines vs (line ∷ lines) = "    " +++ render vs line +++ "\n" +++ more_lines vs lines

  abbrev value_lines : String → Style → Style → List String → String
  value_lines key ks vs [] = ""
  value_lines key ks vs (line ∷ lines) =
      "    " +++ render ks key +++ ": " +++ render vs line +++ "\n" +++ more_lines vs lines

  -- what is written for a value that is no group, under its full key
  unfoldable pub entry_text : String → LogValue R → String
  unfolding split displayed fmt_value
  entry_text key v =
      let is_err = str_eq key "err" || str_eq key "error" in
      value_lines key (if is_err then err_key_style else key_style)
        (if is_err then err_value_style else value_style)
        (split (displayed R (fmt_value R v)) newline)

  -- the prefix of the attributes of a group
  abbrev pub group_prefix : List String → String → List String
  group_prefix groups key = if str_eq key "" then groups else groups ++ key ∷ []

  -- writeAttr, by the text that the buffer has and has then; an attribute that resolves to an empty key
  -- and nil is left out
  unfoldable mutual
    unfolding entry_text

    pub write_attr : String → List String → String → LogValue R → String
    write_attr buf groups key (valuer v) = write_attr buf groups key v
    write_attr buf groups key (group_value attrs) = write_attrs buf (group_prefix groups key) attrs
    write_attr buf groups key nil_value =
        if str_eq key "" then buf else buf +++ entry_text (full_key groups key) nil_value
    write_attr buf groups key v = buf +++ entry_text (full_key groups key) v

    pub write_attrs : String → List String → LogAttrs R → String
    write_attrs buf groups no_attrs = buf
    write_attrs buf groups (attr key v more) = write_attrs (write_attr buf groups key v) groups more

  -- *prettyHandler, without its writer
  pub record PrettyHandler : Type 0 where
    pub level : ℤ
    pub attrs : LogAttrs R
    pub groups : List String

  -- slog.Record
  pub record LogRecord : Type 0 where
    pub time : Time
    pub record_level : ℤ
    pub text : String
    pub record_attrs : LogAttrs R

  unfoldable pub new_pretty_handler : ℤ → PrettyHandler
  new_pretty_handler level = record { level = level; attrs = no_attrs; groups = [] }

  unfoldable pub enabled : PrettyHandler → ℤ → Bool
  enabled h l = leb_int h.level l

  abbrev pub append_attrs : LogAttrs R → LogAttrs R → LogAttrs R
  append_attrs no_attrs more = more
  append_attrs (attr key v attrs) more = attr key v (append_attrs attrs more)

  unfoldable pub with_attrs : LogAttrs R → PrettyHandler → PrettyHandler
  with_attrs attrs h = record h { attrs = append_attrs h.attrs attrs }

  unfoldable pub with_group : String → PrettyHandler → PrettyHandler
  with_group name h = record h { groups = h.groups ++ name ∷ [] }

  -- the first line
  abbrev pub head_line : LogRecord → String
  head_line r =
      render faint (time_clock r.time)
      +++ " "
      +++ render_level R r.record_level
      +++ " "
      +++ render message r.text
      +++ "\n"

  -- Handle, by what it writes
  unfoldable pub handle : PrettyHandler → LogRecord → String
  unfolding write_attrs render_level
  handle h r = write_attrs (write_attrs (head_line r) h.groups h.attrs) h.groups r.record_attrs
