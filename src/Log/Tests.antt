-- ===== src/Log/Tests.antt =====
-- src/log.cc: patterns, levels and configurations at concrete inputs.
use sylar_framework.Prelude.{ℕ, true, ◌≡◌, refl, ◌||◌, ◌&&◌, not, none, some, List, [], ◌∷◌}
use sylar_framework.Prelude.Text.{Text, text, is_alpha}
use sylar_framework.Log.Level.{info}
use sylar_framework.Log.Formatter.{Item, Event, new_formatter, format}
use sylar_framework.Log.Pattern.{Segment, escape, render, spelled, format-render}
use sylar_framework.Log.Total.{new_formatter_total}
use sylar_framework.Log.Loggers.{new_manager, LoggerConf, on_change}
use sylar_framework.Log.Files.{
  open_appender, logs, deletes, run_file, since_deleted, run_file-since_deleted,
}
use sylar_framework.Log.Update.{is_known, names, is_known-on_change}

-- The pattern "[%p] %d{%H}end", whose last three characters are lost.
abbrev segments : List Segment
segments =
    record { text_before = text "["; name = text "p"; details = none }
    ∷ record { text_before = text "] "; name = text "d"; details = some (text "%H") }
    ∷ []

abbrev event : Event
event = record {
  logger_name = text "root";
  filename = text "main.cc";
  level = info;
  line = 7;
  elapse = 0;
  thread_id = 1;
  coroutine_id = 0;
  timestamp = 3600;
  content = text "hello";
}

abbrev hour : Text → ℕ → Text
hour f t = text "01"

format-render_example :
    (is : List Item) × (new_formatter (render segments (text "end")) ≡ some is)
    × (format hour event is ≡ spelled hour event segments)
unfolding is_alpha escape render
format-render_example =
    format-render hour event segments (text "end")
      ((refl, tt), refl, ((refl, tt), (refl, (refl, tt)), tt))

new_formatter_total_example : (is : List Item) × (new_formatter (text "%d{%H %% %") ≡ some is)
new_formatter_total_example = new_formatter_total (text "%d{%H %% %")

abbrev system : LoggerConf
system = record { name = text "system"; level = text "info"; appenders = [] }

abbrev old_conf : LoggerConf
old_conf = record { name = text "root"; level = text "debug"; appenders = [] }

is_known-on_change_example :
    is_known (text "root") (on_change (old_conf ∷ []) (system ∷ []) new_manager).loggers ≡ (
      names (text "root") (system ∷ [])
      || (is_known (text "root") new_manager.loggers && not (names (text "root") (old_conf ∷ []))))
is_known-on_change_example =
    is_known-on_change (text "root") (old_conf ∷ []) (system ∷ []) new_manager

-- A file with an old line, two events, a deletion, and one event more.
run_file-since_deleted_example :
    (run_file
      (open_appender true (some (text "old")))
      (logs (text "a") ∷ logs (text "b") ∷ deletes ∷ logs (text "c") ∷ [])).file
    ≡ since_deleted (some []) (logs (text "a") ∷ logs (text "b") ∷ deletes ∷ logs (text "c") ∷ [])
run_file-since_deleted_example =
    run_file-since_deleted (some (text "old"))
      (logs (text "a") ∷ logs (text "b") ∷ deletes ∷ logs (text "c") ∷ [])
