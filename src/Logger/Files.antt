-- ===== src/Logger/Files.antt =====
-- src/logger.cpp, src/log_utils.cpp: the lines of the appenders, and the file of each day. The date of
-- a call, and whether a file of a name can be opened, are arguments.
pub mod Days
use cpp_reactor_framework.Prelude.{
  ℕ, Bool, true, false, not, ◌&&◌, List, [], ◌∷◌, ◌++◌, leb, ◌==◌, if◌then◌else◌,
}
use cpp_reactor_framework.Logger.{LogEvent, is_error}

unfoldable pub level_to_string : ℕ → List ℕ
level_to_string level =
    if level == 0
    then b'D' ∷ b'E' ∷ b'B' ∷ b'U' ∷ b'G' ∷ []
    else if level == 1
    then b'I' ∷ b'N' ∷ b'F' ∷ b'O' ∷ []
    else if level == 2
    then b'W' ∷ b'A' ∷ b'R' ∷ b'N' ∷ []
    else if level == 3
    then b'E' ∷ b'R' ∷ b'R' ∷ b'O' ∷ b'R' ∷ []
    else if level == 4
    then b'F' ∷ b'A' ∷ b'T' ∷ b'A' ∷ b'L' ∷ []
    else b'U' ∷ b'N' ∷ b'K' ∷ b'N' ∷ b'O' ∷ b'W' ∷ b'N' ∷ []

-- `"[" + time + "] [" + level + "] " + content + "\n"`.
unfoldable pub log_str : LogEvent → List ℕ
log_str e =
    (b'[' ∷ e.time_str)
    ++ ((b']' ∷ b' ' ∷ b'[' ∷ level_to_string e.level) ++ ((b']' ∷ b' ' ∷ e.content) ++ (10 ∷ [])))

-- `written` are the lines in the files, with the name of each line's file, oldest first; `is_open` is
-- that of the stream, whose file is the one of `current_date`.
pub record FileAppender : Type 0 where
  pub base_path : List ℕ
  pub current_date : List ℕ
  pub is_open : Bool
  pub written : List (List ℕ × List ℕ)

-- `"." + date + ".log"` behind the base path.
unfoldable pub full_path : List ℕ → List ℕ → List ℕ
full_path base date = base ++ ((b'.' ∷ date) ++ (b'.' ∷ b'l' ∷ b'o' ∷ b'g' ∷ []))

unfoldable pub same_text : List ℕ → List ℕ → Bool
same_text [] [] = true
same_text [] (d ∷ ds) = false
same_text (c ∷ cs) [] = false
same_text (c ∷ cs) (d ∷ ds) = c == d && same_text cs ds

module _ (can_open : List ℕ → Bool) where
  unfoldable pub open_new_log_file : FileAppender → FileAppender
  open_new_log_file a = record a { is_open = can_open (full_path a.base_path a.current_date) }

  -- The constructor.
  unfoldable pub new : List ℕ → List ℕ → FileAppender
  new base today =
      open_new_log_file
        (record { base_path = base; current_date = today; is_open = false; written = [] })

  unfoldable pub check_roll_over : List ℕ → FileAppender → FileAppender
  check_roll_over today a =
      if same_text today a.current_date
      then a
      else open_new_log_file (record a { current_date = today; is_open = false })

  unfoldable pub append : List ℕ → LogEvent → FileAppender → FileAppender
  append today e a =
      let rolled = check_roll_over today a in
      if rolled.is_open
      then record rolled {
        written =
            rolled.written ++ ((full_path rolled.base_path rolled.current_date, log_str e) ∷ []);
      }
      else rolled

  -- `ErrorFileAppender::Append`.
  unfoldable pub append_error : List ℕ → LogEvent → FileAppender → FileAppender
  append_error today e a = if is_error e then append today e a else a

  -- One event after the other, each with the date of its call.
  unfoldable pub append_all : List (List ℕ × LogEvent) → FileAppender → FileAppender
  append_all [] a = a
  append_all (x ∷ xs) a = append_all xs (append (x.0) (x.1) a)

  unfoldable pub append_errors : List (List ℕ × LogEvent) → FileAppender → FileAppender
  append_errors [] a = a
  append_errors (x ∷ xs) a = append_errors xs (append_error (x.0) (x.1) a)
