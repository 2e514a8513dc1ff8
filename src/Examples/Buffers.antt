-- ===== src/Examples/Buffers.antt =====
-- The theorems on buffers at concrete inputs.
use cpp_reactor_framework.Prelude.{ℕ, ◌≡◌, Option, [], ◌∷◌, arith, ok, fault, out_of_range}
use cpp_reactor_framework.Buffer.{Buffer, new}
use cpp_reactor_framework.Buffer.Io.{read_failed, read_from_fd}
use cpp_reactor_framework.Buffer.View.{IsValid, content}
use cpp_reactor_framework.Buffer.Refine.{new-IsValid}
use cpp_reactor_framework.Buffer.Search.{find_crlf}
use cpp_reactor_framework.Buffer.Sequences.{appends, retrieves, reads, run, spec_run, run-refines}
use cpp_reactor_framework.Buffer.ReadWrite.{read_from_fd_failed}
use cpp_reactor_framework.Buffer.FirstMatch.{IsCrlf, First, find_crlf-First}

abbrev pub line : Buffer
line = record { buf = 0 ∷ b'G' ∷ b'\r' ∷ b'\n' ∷ 0 ∷ []; read_idx = 1; write_idx = 4 }

line-IsValid : IsValid line
line-IsValid = record { ordered = omega arith; inside = omega arith; small = omega arith }

empty-IsValid : IsValid (new 8)
empty-IsValid = (new-IsValid 8 (omega arith)).0

run-refines_example :
    run line (appends (7 ∷ []) ∷ reads 2 ∷ retrieves 9 ∷ [])
    ≡ spec_run (content line) (appends (7 ∷ []) ∷ reads 2 ∷ retrieves 9 ∷ [])
run-refines_example =
    run-refines (appends (7 ∷ []) ∷ reads 2 ∷ retrieves 9 ∷ []) line line-IsValid (omega arith)

read_from_fd_failed_example : read_from_fd line (read_failed 11) ≡ fault out_of_range
read_from_fd_failed_example = read_from_fd_failed line 11 line-IsValid

find_crlf-First_example : (r : Option ℕ) × (find_crlf line ≡ ok r) × First (IsCrlf (content line)) r
find_crlf-First_example = find_crlf-First line line-IsValid
