-- ===== src/Logger/Calls.antt =====
-- src/logger.cpp: the ten calls that write an event. The time of an event, and what `vsnprintf` would
-- print with enough room, are arguments.
use cpp_reactor_framework.Prelude.{ℕ, List, [], ◌∷◌, ◌==◌, if◌then◌else◌, take}
use cpp_reactor_framework.Logger.{Logger, begin_write}

-- `BuildLogMeta`, and the call up to the lock.
abbrev pub write : ℕ → List ℕ → List ℕ → Logger → Logger
write level content time l =
    begin_write (record { level = level; content = content; time_str = time }) l

unfoldable pub debug : List ℕ → List ℕ → Logger → Logger
debug content time l = write 0 content time l

unfoldable pub info : List ℕ → List ℕ → Logger → Logger
info content time l = write 1 content time l

unfoldable pub warn : List ℕ → List ℕ → Logger → Logger
warn content time l = write 2 content time l

unfoldable pub error : List ℕ → List ℕ → Logger → Logger
error content time l = write 3 content time l

unfoldable pub fatal : List ℕ → List ℕ → Logger → Logger
fatal content time l = write 4 content time l

-- `std::string(buf)` ends at the first zero byte.
unfoldable pub c_string : List ℕ → List ℕ
c_string [] = []
c_string (c ∷ cs) = let rest = c_string cs in if c == 0 then [] else c ∷ rest

-- `char buf[4096]` holds one byte less of text.
unfoldable pub formatted : List ℕ → List ℕ
formatted printed = c_string (take 4095 printed)

unfoldable pub debug_format : List ℕ → List ℕ → Logger → Logger
debug_format printed time l = write 0 (formatted printed) time l

unfoldable pub info_format : List ℕ → List ℕ → Logger → Logger
info_format printed time l = write 1 (formatted printed) time l

unfoldable pub warn_format : List ℕ → List ℕ → Logger → Logger
warn_format printed time l = write 2 (formatted printed) time l

unfoldable pub error_format : List ℕ → List ℕ → Logger → Logger
error_format printed time l = write 3 (formatted printed) time l

unfoldable pub fatal_format : List ℕ → List ℕ → Logger → Logger
fatal_format printed time l = write 4 (formatted printed) time l
