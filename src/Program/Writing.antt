-- ===== src/Program/Writing.antt =====
-- src/main.cpp: one write of a connection of the echo server, on every outcome.
use cpp_reactor_framework.Prelude.{
  ℕ, zero, suc, ◌≡◌, ◌≢◌, inl, inr, refl, ap, Bool, true, false, not, ◌||◌, List, [], ◌∷◌, arith,
  ok, ◌==◌, if◌then◌else◌, if_elim, length,
}
use cpp_reactor_framework.Buffer.{readable_bytes}
use cpp_reactor_framework.Buffer.Io.{WriteOutcome, took, write_failed}
use cpp_reactor_framework.Buffer.View.{content}
use cpp_reactor_framework.Poller.{Poller}
use cpp_reactor_framework.TcpConnection.{TcpConnection, is_connected, is_disconnected, eagain}
use cpp_reactor_framework.TcpConnection.Handlers.{handle_write, handle_close}
use cpp_reactor_framework.TcpConnection.Invariant.{IsValid}
use cpp_reactor_framework.TcpConnection.Closing.{handle_close_lem}
use cpp_reactor_framework.TcpConnection.Writing.{
  empty_or_not, Offered, untaken, handle_write_took, handle_write_nothing, handle_write_failed,
  handle_write_empty,
}

module _ (P : Poller) where
  -- Whether a write ends the connection: there was nothing to write, the system took nothing, or it
  -- failed and would not only block.
  abbrev pub write_ends : TcpConnection P → WriteOutcome → Bool
  write_ends c (took n) = length (content c.output_buffer) == 0 || n == 0
  write_ends c (write_failed errno) = length (content c.output_buffer) == 0 || not (errno == eagain)

  -- What a write leaves alone, and whether the connection goes on.
  pub record Written (c : TcpConnection P) (outcome : WriteOutcome) (c' : TcpConnection P)
      : Type 0 where
    pub state : (if write_ends c outcome then is_disconnected P c' else is_connected P c') ≡ true
    pub input : c'.input_buffer ≡ c.input_buffer
    pub callbacks : c'.callbacks ≡ c.callbacks

  -- A write that ends the connection, which may have a new output buffer and notice.
  handle_close-Written :
      (c d : TcpConnection P) (outcome : WriteOutcome)
      → IsValid P d
      → is_connected P d ≡ true
      → write_ends c outcome ≡ true
      → d.input_buffer ≡ c.input_buffer
      → d.callbacks ≡ c.callbacks
      → Written c outcome (handle_close P d)
  handle_close-Written c d outcome v going over input callbacks =
      rw (handle_close_lem P d v (ground arith))
        (record { state = rw over refl; input = input; callbacks = callbacks })

  pub write_lem :
      (c : TcpConnection P) (now : ℕ) (outcome : WriteOutcome)
      → IsValid P c
      → is_connected P c ≡ true
      → Offered P c outcome
      → (c' : TcpConnection P) × (handle_write P now outcome c ≡ ok c') × Written c outcome c'
  write_lem c now outcome v going offered = elim (empty_or_not (content c.output_buffer)) [
    | inl none_left ↦ (
      handle_close P c,
      handle_write_empty P c now v going outcome none_left,
      handle_close-Written c c outcome v going (nothing outcome none_left) refl refl,
    )
    | inr some_left ↦ by_outcome outcome offered some_left
  ]
    where
      nothing :
          (outcome : WriteOutcome) → content c.output_buffer ≡ [] → write_ends c outcome ≡ true
      nothing (took n) none_left = ground (arith, ap length none_left)
      nothing (write_failed errno) none_left = ground (arith, ap length none_left)

      something : (l : List ℕ) → l ≢ [] → (length l == 0) ≡ false
      something [] n = absurd (n refl)
      something (x ∷ xs) n = ground arith

      by_outcome :
          (outcome : WriteOutcome)
          → Offered P c outcome
          → content c.output_buffer ≢ []
          → (c' : TcpConnection P) × (handle_write P now outcome c ≡ ok c') × Written c outcome c'
      by_outcome (took zero) offered some_left =
          let (out, ran, same, held) = handle_write_nothing P c now v going some_left in
          (
            _,
            ran,
            handle_close-Written c (untaken P c now v going out) (took zero) held going
                (ground arith) refl refl,
          )
      by_outcome (took (suc k)) offered some_left =
          let (out, ran, same, held) =
            handle_write_took P c now v going (suc k) (omega arith) offered in
          (
            _,
            ran,
            if_elim (Written c (took (suc k))) (readable_bytes out == 0)
                (λ e. record {
                  state = ground (arith, something (content c.output_buffer) some_left);
                  input = refl;
                  callbacks = refl;
                })
                (λ e. record {
                  state = ground (arith, something (content c.output_buffer) some_left);
                  input = refl;
                  callbacks = refl;
                }),
          )
      by_outcome (write_failed errno) offered some_left = (
        _,
        handle_write_failed P c now v going errno some_left,
        if_elim (Written c (write_failed errno)) (errno == eagain)
            (λ blocks. record {
              state = ground (arith, something (content c.output_buffer) some_left);
              input = refl;
              callbacks = refl;
            })
            (λ fails.
              handle_close-Written c c (write_failed errno) v going (ground (arith, fails)) refl
                refl),
      )
