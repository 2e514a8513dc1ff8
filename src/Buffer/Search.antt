-- ===== src/Buffer/Search.antt =====
-- src/buffer.cpp: `FindCRLF` and `FindEOL`. A pointer is returned as an offset from `Peek()`.
use cpp_reactor_framework.Prelude.{
  ℕ, Bool, false, zero, suc, ◌+◌, Option, none, some, List, [], ◌∷◌, Result, ok, ◌>>=◌, ◌>>◌,
  in_range, leb, ◌==◌, if◌then◌else◌, length, drop,
}
use cpp_reactor_framework.Buffer.{Buffer, readable_bytes, peek}

abbrev pub cr : ℕ
cr = 13

abbrev pub lf : ℕ
lf = 10

abbrev pub one_on : Option ℕ → Option ℕ
one_on none = none
one_on (some k) = some (suc k)

-- The offset of the first byte `c`.
unfoldable pub memchr : ℕ → List ℕ → Option ℕ
memchr c [] = none
memchr c (x ∷ xs) = if x == c then some 0 else one_on (memchr c xs)

-- `p + 1 < end && *(p + 1) == '\n'`, for the bytes from `p + 1` on.
abbrev pub starts_lf : List ℕ → Bool
starts_lf [] = false
starts_lf (x ∷ xs) = x == lf

-- An offset from `start + n`, as an offset from `start`.
abbrev pub shift : ℕ → Option ℕ → Option ℕ
shift n none = none
shift n (some k) = some (n + k)

-- The loop at `p = start + off`; the list is `[p, end)`.
unfoldable pub crlf_loop : ℕ → List ℕ → ℕ → Option ℕ
crlf_loop zero xs off = none
crlf_loop (suc fuel) xs off = elim (memchr cr xs) [
  | none ↦ none
  | some k ↦
      let rest = crlf_loop fuel (drop (suc k) xs) (off + suc k) in
      if starts_lf (drop (suc k) xs) then some (off + k) else rest
]

-- `FindCRLF(start)`, for `start = Peek() + from`.
unfoldable pub find_crlf_from : Buffer → ℕ → Result (Option ℕ)
find_crlf_from b from = do
  readable ← peek b (readable_bytes b)
  in_range (leb from (length readable))
  ok (crlf_loop (suc (length readable)) (drop from readable) from)

unfoldable pub find_crlf : Buffer → Result (Option ℕ)
find_crlf b = find_crlf_from b 0

-- `FindEOL(start)`, likewise.
unfoldable pub find_eol_from : Buffer → ℕ → Result (Option ℕ)
find_eol_from b from = do
  readable ← peek b (readable_bytes b)
  in_range (leb from (length readable))
  ok (shift from (memchr lf (drop from readable)))

unfoldable pub find_eol : Buffer → Result (Option ℕ)
find_eol b = find_eol_from b 0
