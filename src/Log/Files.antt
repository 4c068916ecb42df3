-- ===== src/Log/Files.antt =====
-- src/log.cc and src/include/log.hh: `LogAppenderToFile` on the file of its name. What is written is
-- taken to be in the file at once; whether the file can be opened, its directories included, is an
-- argument. Other programs delete the file, and nothing else is done to it.
use sylar_framework.Prelude.{
  ◌≡◌, refl, Bool, true, false, List, [], ◌∷◌, ◌++◌, Option, none, some, if◌then◌else◌,
}
use sylar_framework.Prelude.Text.{Text}

-- What `ofs_` writes to: the file of the name, one that has been deleted, or nothing.
pub data Stream : Type 0 where
  on_file on_deleted failed : Stream

pub record Disk : Type 0 where
  pub file : Option Text
  pub stream : Stream

-- `Reopen`: the default mode of `std::ofstream` empties a file that is there.
unfoldable pub reopen : Bool → Disk → Disk
reopen can_open d =
    if can_open
    then record { file = some []; stream = on_file }
    else record { file = d.file; stream = failed }

-- `LogAppenderToFile::LogAppenderToFile`, with the file that is there.
abbrev pub open_appender : Bool → Option Text → Disk
open_appender can_open file = reopen can_open (record { file = file; stream = failed })

abbrev appended : Option Text → Text → Option Text
appended none t = none
appended (some s) t = some (s ++ t)

-- `ofs_ << text`.
unfoldable pub write_text : Text → Disk → Disk
write_text t d = elim d.stream [
  | on_file ↦ record d { file = appended d.file t }
  | on_deleted ↦ d
  | failed ↦ d
]

abbrev exists : Option Text → Bool
exists none = false
exists (some s) = true

-- `LogAppenderToFile::Log`, with the text of the event.
unfoldable pub log_to_file : Bool → Text → Disk → Disk
unfolding reopen write_text
log_to_file can_open t d =
    if exists d.file then write_text t d else write_text t (reopen can_open d)

-- Someone deletes the file.
unfoldable pub delete_file : Disk → Disk
delete_file d = elim d.stream [
  | on_file ↦ record { file = none; stream = on_deleted }
  | on_deleted ↦ record { file = none; stream = on_deleted }
  | failed ↦ record { file = none; stream = failed }
]

pub data Happens : Type 0 where
  logs : Text → Happens
  deletes : Happens

unfoldable pub run_file : Disk → List Happens → Disk
unfolding log_to_file delete_file
run_file d [] = d
run_file d (logs t ∷ hs) = run_file (log_to_file true t d) hs
run_file d (deletes ∷ hs) = run_file (delete_file d) hs

-- What the file should hold: the texts since it was last deleted, in their order.
abbrev pub since_deleted : Option Text → List Happens → Option Text
since_deleted o [] = o
since_deleted none (logs t ∷ hs) = since_deleted (some t) hs
since_deleted (some s) (logs t ∷ hs) = since_deleted (some (s ++ t)) hs
since_deleted o (deletes ∷ hs) = since_deleted none hs

file-run_file :
    (o : Option Text) (w : Stream) (hs : List Happens)
    → ((exists o ≡ true) → w ≡ on_file)
    → (run_file (record { file = o; stream = w }) hs).file ≡ since_deleted o hs
unfolding run_file log_to_file delete_file write_text reopen
file-run_file o w [] h = refl
file-run_file none w (logs t ∷ hs) h = file-run_file (some t) on_file hs (λ e. refl)
file-run_file (some s) on_file (logs t ∷ hs) h =
    file-run_file (some (s ++ t)) on_file hs (λ e. refl)
file-run_file (some s) on_deleted (logs t ∷ hs) h = cc (h refl)
file-run_file (some s) failed (logs t ∷ hs) h = cc (h refl)
file-run_file o on_file (deletes ∷ hs) h = file-run_file none on_deleted hs (λ e. cc e)
file-run_file o on_deleted (deletes ∷ hs) h = file-run_file none on_deleted hs (λ e. cc e)
file-run_file o failed (deletes ∷ hs) h = file-run_file none failed hs (λ e. cc e)

-- Where the file can always be opened, an appender's file holds the texts that have been logged since
-- the appender was made or, if it has been deleted since, since it was last deleted; what it held
-- before the appender was made is gone. A file that was deleted is there again with the next event.
pub run_file-since_deleted :
    (before : Option Text) (hs : List Happens)
    → (run_file (open_appender true before) hs).file ≡ since_deleted (some []) hs
unfolding reopen
run_file-since_deleted before hs = file-run_file (some []) on_file hs (λ e. refl)
