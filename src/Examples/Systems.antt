-- ===== src/Examples/Systems.antt =====
-- The theorems on system calls, addresses and socket options at concrete inputs.
use cpp_reactor_framework.Prelude.{
  ℕ, ◌+◌, ◌≡◌, ◌≢◌, refl, true, false, not, ◌||◌, Option, none, some, List, [], ◌∷◌, arith, length,
  ap, subst, ltb, ◌-◌, ◌==◌, if◌then◌else◌,
}
use cpp_reactor_framework.SocketUtils.{Answers, is_nonblocking, create_non_blocking_socket}
use cpp_reactor_framework.SocketUtils.Descriptors.{
  times_opened, times_closed, never_blocks, create_non_blocking_socket_lem,
}
use cpp_reactor_framework.Socket.Ownership.{owns}
use cpp_reactor_framework.Poller.{is_some}
use cpp_reactor_framework.Socket.Options.{
  create_non_blocking, fcntl_succeeds, create_non_blocking_lem,
}
use cpp_reactor_framework.Address
use cpp_reactor_framework.Address.{Inet, Address, get_port, to_string}
use cpp_reactor_framework.Address.Text.{NoColon, before_colon, after_colon, number_from}
use cpp_reactor_framework.Address.RoundTrip.{new-to_string, new-IsAddress}

-- The descriptor 5, whose flags are read and cannot be set.
abbrev refused : Answers
refused = record {
  made = some 5;
  flags = some 2;
  flags_set = false;
  reuse_addr_set = true;
  reuse_port_set = true;
  bind_error = none;
  listen_error = none;
}

create_non_blocking_socket_lem_example :
    (times_opened 5 (create_non_blocking_socket refused).1
      ≡ times_closed 5 (create_non_blocking_socket refused).1
        + owns 5 (create_non_blocking_socket refused).0)
    × (never_blocks 2 (create_non_blocking_socket refused) ≡ true)
create_non_blocking_socket_lem_example = create_non_blocking_socket_lem refused 5 2

create_non_blocking_lem_example :
    never_blocks 2 (create_non_blocking refused)
    ≡ (not (is_some refused.made) || fcntl_succeeds refused || is_nonblocking 2)
create_non_blocking_lem_example = create_non_blocking_lem refused 2

-- A text of four letters, none of which is a colon, is the address whose bytes it is written with:
-- byte n is the letter n, and the letter after it from the colon on.
abbrev letter : ℕ → ℕ
letter n = if ltb n 58 then n else n + 1

abbrev byte : ℕ → ℕ
byte n = if ltb n 58 then n else n - 1

abbrev spell : List ℕ → Option (List ℕ)
spell (a ∷ b ∷ c ∷ d ∷ []) = some (letter a ∷ letter b ∷ letter c ∷ letter d ∷ [])
spell bin = none

abbrev read : List ℕ → Option (List ℕ)
read (a ∷ b ∷ c ∷ d ∷ []) = some (byte a ∷ byte b ∷ byte c ∷ byte d ∷ [])
read text = none

byte-letter : (n : ℕ) → byte (letter n) ≡ n
byte-letter n = ground arith

colonless_letter : (n : ℕ) → (letter n == b':') ≡ false
colonless_letter n = ground arith

length-read : (text bin : List ℕ) → read text ≡ some bin → length bin ≡ 4
length-read (a ∷ b ∷ c ∷ d ∷ []) bin h = ground arith
length-read [] bin h = cc
length-read (a ∷ []) bin h = cc
length-read (a ∷ b ∷ []) bin h = cc
length-read (a ∷ b ∷ c ∷ []) bin h = cc
length-read (a ∷ b ∷ c ∷ d ∷ e ∷ text) bin h = cc

spelled :
    (bin : List ℕ)
    → length bin ≡ 4
    → (text : List ℕ) × (text ≢ []) × (spell bin ≡ some text) × (read text ≡ some bin)
spelled (a ∷ b ∷ c ∷ d ∷ []) four = (
  letter a ∷ letter b ∷ letter c ∷ letter d ∷ [],
  λ e. absurd (omega (arith, ap length e)),
  refl,
  λ i. some (byte-letter a i ∷ byte-letter b i ∷ byte-letter c i ∷ byte-letter d i ∷ []),
)
spelled [] four = absurd (omega arith)
spelled (a ∷ []) four = absurd (omega arith)
spelled (a ∷ b ∷ []) four = absurd (omega arith)
spelled (a ∷ b ∷ c ∷ []) four = absurd (omega arith)
spelled (a ∷ b ∷ c ∷ d ∷ e ∷ bin) four = absurd (omega arith)

spelled-NoColon : (bin text : List ℕ) → spell bin ≡ some text → NoColon text
spelled-NoColon (a ∷ b ∷ c ∷ d ∷ []) text h =
    subst NoColon (unwrapped h)
      (colonless_letter a, (colonless_letter b, (colonless_letter c, (colonless_letter d, tt))))
  where
    unwrapped : {s t : List ℕ} → some s ≡ some t → s ≡ t
    unwrapped e = cc
spelled-NoColon [] text h = cc
spelled-NoColon (a ∷ []) text h = cc
spelled-NoColon (a ∷ b ∷ []) text h = cc
spelled-NoColon (a ∷ b ∷ c ∷ []) text h = cc
spelled-NoColon (a ∷ b ∷ c ∷ d ∷ e ∷ bin) text h = cc

abbrev letters : Inet
letters = record {
  inet_pton = read;
  inet_ntop = spell;
  length-pton = length-read;
  ntop_text = spelled;
}

abbrev local_address : Address
local_address = Address.new letters (127 ∷ 0 ∷ 0 ∷ 1 ∷ []) 9000

new-to_string_example :
    Address.new letters
      (before_colon (to_string letters local_address))
      (number_from 0 (after_colon (to_string letters local_address)))
    ≡ local_address
new-to_string_example =
    new-to_string letters local_address (new-IsAddress letters (127 ∷ 0 ∷ 0 ∷ 1 ∷ []) 9000)
      spelled-NoColon
