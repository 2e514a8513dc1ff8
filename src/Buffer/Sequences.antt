-- ===== src/Buffer/Sequences.antt =====
-- A buffer used by a sequence of calls, beside the byte queue that it implements.
use cpp_reactor_framework.Prelude.{
  ℕ, ◌+◌, ◌≤◌, ◌≡◌, refl, ap, inl, inr, List, [], ◌∷◌, ◌++◌, arith, Result, ok, Fault, fault,
  assertion_failed, ◌>>=◌, ◌⊎◌, Bool-cases, leb, if◌then◌else◌, length, take, drop,
}
use cpp_reactor_framework.Buffer.{
  Buffer, max_size, retrieve, retrieve_all, retrieve_as_string, retrieve_all_as_string,
  append_string,
}
use cpp_reactor_framework.Buffer.View.{IsValid, content}
use cpp_reactor_framework.Buffer.Refine.{
  append-Yields, retrieve-Yields, retrieve_refuses, retrieve_as_string-Yields,
  retrieve_as_string_refuses, retrieve_all_as_string-Yields, retrieve_all-IsValid,
}

-- What a client asks of a buffer.
pub data Op : Type 0 where
  appends : List ℕ → Op
  retrieves : ℕ → Op
  clears : Op
  reads : ℕ → Op
  reads_all : Op

-- A call: the bytes that it hands out, and the new state.
unfoldable pub step : Buffer → Op → Result (List ℕ × Buffer)
step b (appends bytes) = append_string b bytes >>= λ b'. ok ([], b')
step b (retrieves n) = retrieve b n >>= λ b'. ok ([], b')
step b clears = ok ([], retrieve_all b)
step b (reads n) = retrieve_as_string b n
step b reads_all = retrieve_all_as_string b

-- The same on a queue of bytes: reading more than there is fails an assertion.
unfoldable pub spec_step : List ℕ → Op → Result (List ℕ × List ℕ)
spec_step q (appends bytes) = ok ([], q ++ bytes)
spec_step q (retrieves n) = if leb n (length q) then ok ([], drop n q) else fault assertion_failed
spec_step q clears = ok ([], [])
spec_step q (reads n) = if leb n (length q) then ok (take n q, drop n q) else fault assertion_failed
spec_step q reads_all = ok (q, [])

-- The replies of a sequence of calls.
unfoldable pub run : Buffer → List Op → Result (List (List ℕ))
run b [] = ok []
run b (op ∷ ops) = do (reply, b') ← step b op; replies ← run b' ops; ok (reply ∷ replies)

unfoldable pub spec_run : List ℕ → List Op → Result (List (List ℕ))
spec_run q [] = ok []
spec_run q (op ∷ ops) = do
  (reply, q') ← spec_step q op
  replies ← spec_run q' ops
  ok (reply ∷ replies)

-- How many bytes a sequence of calls appends.
abbrev pub appended : List Op → ℕ
appended [] = 0
appended (appends bytes ∷ ops) = length bytes + appended ops
appended (retrieves n ∷ ops) = appended ops
appended (clears ∷ ops) = appended ops
appended (reads n ∷ ops) = appended ops
appended (reads_all ∷ ops) = appended ops

-- One call agrees with the queue: both fail alike, or they hand out the same bytes, and then the
-- buffer is in order, holds the queue, and has grown by at most the bytes appended.
abbrev Agree : ℕ → Result (List ℕ × Buffer) → Result (List ℕ × List ℕ) → Type 0
Agree size r q =
    ((e : Fault) × (r ≡ fault e) × (q ≡ fault e))
    ⊎ ((reply : List ℕ) × (b : Buffer) × (r ≡ ok (reply, b))
        × IsValid b
        × (q ≡ ok (reply, content b))
        × (length b.buf ≤ size))

step-Agree :
    (b : Buffer) (op : Op)
    → IsValid b
    → length b.buf + appended (op ∷ []) ≤ max_size
    → Agree (length b.buf + appended (op ∷ [])) (step b op) (spec_step (content b) op)
unfolding step spec_step retrieve_all
step-Agree b (appends bytes) v h =
    let (b', e, valid, same, size) = append-Yields b bytes v (omega (arith, v.inside)) in
    inr ([], b', rw e, valid, rw same, omega (arith, size))
step-Agree b (retrieves n) v h = elim (Bool-cases (leb n (length (content b)))) [
  | inl fits ↦
      let (b', e, valid, same, storage) = retrieve-Yields b n v (ground arith) in
      inr ([], b', rw e, valid, rw (fits, same), omega (arith, ap length storage))
  | inr over ↦ inl (assertion_failed, rw (retrieve_refuses b n v (ground arith)), rw over)
]
step-Agree b clears v h =
    let (valid, same) = retrieve_all-IsValid b v in
    inr ([], retrieve_all b, refl, valid, refl, omega arith)
step-Agree b (reads n) v h = elim (Bool-cases (leb n (length (content b)))) [
  | inl fits ↦
      let (b', e, valid, same, storage) = retrieve_as_string-Yields b n v (ground arith) in
      inr (take n (content b), b', e, valid, rw (fits, same), omega (arith, ap length storage))
  | inr over ↦ inl (assertion_failed, retrieve_as_string_refuses b n v (ground arith), rw over)
]
step-Agree b reads_all v h =
    let (b', e, valid, same, storage) = retrieve_all_as_string-Yields b v in
    inr (content b, b', e, valid, rw same, omega (arith, ap length storage))

appended-cons : (op : Op) (ops : List Op) → appended (op ∷ ops) ≡ appended (op ∷ []) + appended ops
appended-cons (appends bytes) ops = omega arith
appended-cons (retrieves n) ops = omega arith
appended-cons clears ops = omega arith
appended-cons (reads n) ops = omega arith
appended-cons reads_all ops = omega arith

-- A buffer in order answers every sequence of calls as the queue of its unread bytes does, the
-- failing assertions included, if its storage and what is appended fit the largest vector.
pub run-refines :
    (ops : List Op) (b : Buffer)
    → IsValid b
    → length b.buf + appended ops ≤ max_size
    → run b ops ≡ spec_run (content b) ops
unfolding run spec_run
run-refines [] b v h = refl
run-refines (op ∷ ops) b v h = elim (step-Agree b op v (omega (arith, appended-cons op ops))) [
  | inl (e, p, q) ↦ rw (p, q)
  | inr (reply, b', p, valid, q, size) ↦
      rw (p, q)
        (ap (λ r. r >>= λ replies. ok (reply ∷ replies))
          (run-refines ops b' valid (omega (arith, appended-cons op ops))))
]
