-- ===== src/Logger/Tests.antt =====
-- A record with a group, written.
use grpcx.Common.{String, [], ◌∷◌, ◌≡◌, none, false}
use grpcx.Common.Integers.{pos}
use grpcx.Common.Text.{split, join, trim_space, has_prefix}
use grpcx.Logger.{
  Printing, string_value, group_value, no_attrs, attr, render_level, displayed, looks_like_json,
  fmt_value,
}
use grpcx.Logger.Pretty.{PrettyHandler, LogRecord, handle, entry_text}
use grpcx.Logger.Pretty.Layout.{handle_lem}

abbrev printing : Printing
printing = record {
  Duration = String;
  Float = String;
  Time = String;
  AnyValue = String;
  render = λ style t. t;
  debug_label = "DBG";
  info_label = "INF";
  warn_label = "WRN";
  error_label = "ERR";
  fatal_label = "FTL";
  level_string = λ l. "LEVEL";
  duration_string = λ d. d;
  float_g = λ f. f;
  int_d = λ n. "7";
  uint_d = λ n. "7";
  time_rfc3339 = λ t. t;
  time_clock = λ t. t;
  any_plus_v = λ a. a;
  json_valid = λ s. false;
  json_indent = λ s. none;
}

abbrev h : PrettyHandler printing
h = record { level = pos 0; attrs = attr "svc" (string_value "shop") no_attrs; groups = "req" ∷ [] }

abbrev r : LogRecord printing
r = record {
  time = "10:00:00.000";
  record_level = pos 0;
  text = "done";
  record_attrs = attr "user" (group_value (attr "id" (string_value "u1") no_attrs)) no_attrs;
}

handle_lem_example :
    handle printing h r ≡ "10:00:00.000 INF done\n    req.svc: shop\n    req.user.id: u1\n"
unfolding entry_text render_level join split displayed looks_like_json fmt_value trim_space
    has_prefix
handle_lem_example = handle_lem printing h r
