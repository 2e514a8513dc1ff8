-- ===== src/Buffer/FirstMatch.antt =====
-- src/buffer.cpp: `FindCRLF` and `FindEOL` return the first match.
use cpp_reactor_framework.Prelude.{
  ℕ, zero, suc, ◌+◌, ◌<◌, ◌≡◌, refl, ap, inl, inr, true, false, ◌&&◌, Option, none, some, List, [],
  ◌∷◌, arith, ok, Bool-cases, Option-cases, ◌==◌, leb, if◌then◌else◌, length, get_elem?, drop,
  length-drop, take_all,
}
use cpp_reactor_framework.Buffer.{Buffer}
use cpp_reactor_framework.Buffer.Search.{
  cr, lf, one_on, memchr, starts_lf, shift, crlf_loop, find_crlf_from, find_crlf, find_eol_from,
  find_eol,
}
use cpp_reactor_framework.Buffer.View.{IsValid, content, readable_bytes-content}
use cpp_reactor_framework.Buffer.Refine.{peek_valid}

-- The bytes `\r\n` stand at the index `i`.
abbrev pub IsCrlf : List ℕ → ℕ → Type 0
IsCrlf xs i = (get_elem? xs i ≡ some cr) × (get_elem? xs (suc i) ≡ some lf)

-- A byte `\n` stands at the index `i`.
abbrev pub IsEol : List ℕ → ℕ → Type 0
IsEol xs i = get_elem? xs i ≡ some lf

-- The first index of a kind, or none.
abbrev pub First : (ℕ → Type 0) → Option ℕ → Type 0
First P (some i) = P i × ((j : ℕ) → j < i → ¬ P j)
First P none = (j : ℕ) → ¬ P j

-- The search for `\r\n` byte by byte.
scan : List ℕ → Option ℕ
scan [] = none
scan (x ∷ xs) = if (x == cr) && starts_lf xs then some 0 else one_on (scan xs)

-- A first match after an element that is none.
First-one_on :
    (P : ℕ → Type 0) (r : Option ℕ) → ¬ P 0 → First (λ i. P (suc i)) r → First P (one_on r)
First-one_on P none other f = later
  where
    later : (j : ℕ) → ¬ P j
    later zero = other
    later (suc j) = f j
First-one_on P (some i) other f = (f.0, earlier)
  where
    earlier : (j : ℕ) → j < suc i → ¬ P j
    earlier zero h = other
    earlier (suc j) h = f.1 j (omega arith)

-- The test at one byte decides whether a match starts there.
IsCrlf-here :
    (x : ℕ) (xs : List ℕ)
    → (((x == cr) && starts_lf xs) ≡ true → IsCrlf (x ∷ xs) 0)
      × (((x == cr) && starts_lf xs) ≡ false → ¬ IsCrlf (x ∷ xs) 0)
IsCrlf-here x [] = (λ h. ground arith, λ h m. ground arith)
IsCrlf-here x (y ∷ xs) = (λ h. ground arith, λ h m. ground arith)

scan-First : (xs : List ℕ) → First (IsCrlf xs) (scan xs)
unfolding scan
scan-First [] = λ j h. cc
scan-First (x ∷ xs) = elim (Bool-cases ((x == cr) && starts_lf xs)) [
  | inl here ↦ rw here ((IsCrlf-here x xs).0 here, λ j h. absurd (omega arith))
  | inr not_here ↦
      rw not_here
        (First-one_on (IsCrlf (x ∷ xs)) (scan xs) ((IsCrlf-here x xs).1 not_here) (scan-First xs))
]

one_on-shift : (n : ℕ) (r : Option ℕ) → one_on (shift n r) ≡ shift (suc n) r
one_on-shift n none = refl
one_on-shift n (some k) = ap some (omega arith)

shift_zero : (r : Option ℕ) → shift 0 r ≡ r
shift_zero none = refl
shift_zero (some k) = ap some (omega arith)

shift-shift : (m n : ℕ) (r : Option ℕ) → shift m (shift n r) ≡ shift (m + n) r
shift-shift m n none = refl
shift-shift m n (some k) = ap some (omega arith)

memchr-none : (xs : List ℕ) → memchr cr xs ≡ none → scan xs ≡ none
unfolding memchr scan
memchr-none [] h = refl
memchr-none (x ∷ xs) h = ground (arith, memchr-none xs)

memchr-some :
    (xs : List ℕ) (k : ℕ)
    → memchr cr xs ≡ some k
    → (scan xs
        ≡ (if starts_lf (drop (suc k) xs) then some k else shift (suc k) (scan (drop (suc k) xs))))
      × (k < length xs)
unfolding memchr scan
memchr-some [] k h = cc
memchr-some (x ∷ xs) k h = elim (Bool-cases (x == cr)) [
  | inl here ↦
      let e : 0 ≡ k = ground arith in
      rw (← e)
        (rw here (ground (arith, one_on-shift 0 (scan xs), shift_zero (scan xs))), omega arith)
  | inr not_here ↦ elim (Option-cases (memchr cr xs)) [
    | inl none_left ↦ absurd (ground arith)
    | inr (k', found) ↦
        let e : suc k' ≡ k = ground arith in
        let (rest, below) = memchr-some xs k' found in
        rw (← e) (
          rw (not_here, rest) (ground (arith, one_on-shift (suc k') (scan (drop (suc k') xs)))),
          omega arith,
        )
  ]
]

crlf_loop-scan :
    (fuel : ℕ) (xs : List ℕ) (off : ℕ)
    → length xs < fuel
    → crlf_loop fuel xs off ≡ shift off (scan xs)
unfolding crlf_loop
crlf_loop-scan zero xs off h = absurd (omega arith)
crlf_loop-scan (suc fuel) xs off h = elim (Option-cases (memchr cr xs)) [
  | inl e ↦ rw (e, crlf_loop) (rw (memchr-none xs e))
  | inr (k, e) ↦
      let (split, below) = memchr-some xs k e in
      rw (e, crlf_loop)
        (rw
          (
            crlf_loop-scan fuel (drop (suc k) xs) (off + suc k)
                (omega (arith, length-drop (suc k) xs)),
            split,
          )
          (ground (arith, shift-shift off (suc k) (scan (drop (suc k) xs)))))
]

leb_zero : (n : ℕ) → leb 0 n ≡ true
leb_zero n = ground arith

-- `FindCRLF` on a buffer in order returns the place of the first `\r\n` among the unread bytes,
-- and nothing exactly if there is none.
pub find_crlf-First :
    (b : Buffer) → IsValid b → (r : Option ℕ) × (find_crlf b ≡ ok r) × First (IsCrlf (content b)) r
unfolding find_crlf find_crlf_from
find_crlf-First b v = (
  scan (content b),
  rw
      (
        readable_bytes-content b v,
        peek_valid b (length (content b)) v (omega arith),
        take_all (length (content b)) (content b) (omega arith),
        leb_zero (length (content b)),
      )
      (rw (crlf_loop-scan (suc (length (content b))) (content b) 0 (omega arith))
        (ap ok (shift_zero (scan (content b))))),
  scan-First (content b),
)

memchr-First : (xs : List ℕ) → First (IsEol xs) (memchr lf xs)
unfolding memchr
memchr-First [] = λ j h. cc
memchr-First (x ∷ xs) = elim (Bool-cases (x == lf)) [
  | inl here ↦ rw here (ground arith, λ j h. absurd (omega arith))
  | inr not_here ↦
      rw not_here
        (First-one_on (IsEol (x ∷ xs)) (memchr lf xs) (λ m. ground arith) (memchr-First xs))
]

-- `FindEOL` on a buffer in order returns the place of the first `\n` among the unread bytes, and
-- nothing exactly if there is none.
pub find_eol-First :
    (b : Buffer) → IsValid b → (r : Option ℕ) × (find_eol b ≡ ok r) × First (IsEol (content b)) r
unfolding find_eol find_eol_from
find_eol-First b v = (
  memchr lf (content b),
  rw
      (
        readable_bytes-content b v,
        peek_valid b (length (content b)) v (omega arith),
        take_all (length (content b)) (content b) (omega arith),
        leb_zero (length (content b)),
      )
      (ap ok (shift_zero (memchr lf (content b)))),
  memchr-First (content b),
)
