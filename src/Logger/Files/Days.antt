-- ===== src/Logger/Files/Days.antt =====
-- src/logger.cpp: in which file a line stands.
use cpp_reactor_framework.Prelude.{
  ℕ, ◌≡◌, refl, sym, ap, ap₂, ◌∙◌, inl, inr, Bool, true, List, [], ◌∷◌, ◌++◌, append-nil,
  append_assoc, arith, Bool-cases, if◌then◌else◌, if_elim, if_true, if_false,
}
use cpp_reactor_framework.Logger.{LogEvent, is_error}
use cpp_reactor_framework.Logger.Files.{
  FileAppender, full_path, log_str, same_text, open_new_log_file, new, check_roll_over, append,
  append_error, append_all, append_errors,
}

same_text-eq : (s t : List ℕ) → same_text s t ≡ true → s ≡ t
unfolding same_text
same_text-eq [] [] h = refl
same_text-eq [] (d ∷ ds) h = cc
same_text-eq (c ∷ cs) [] h = cc
same_text-eq (c ∷ cs) (d ∷ ds) h =
    ap₂ (λ x l. x ∷ l) (ground arith) (same_text-eq cs ds (ground arith))

-- The events from ERROR on.
abbrev pub dated_errors : List (List ℕ × LogEvent) → List (List ℕ × LogEvent)
dated_errors [] = []
dated_errors (x ∷ xs) = if is_error (x.1) then x ∷ dated_errors xs else dated_errors xs

module _ (can_open : List ℕ → Bool) where
  -- The lines of events with the dates of their calls, in the files that can be opened.
  abbrev pub lines : List ℕ → List (List ℕ × LogEvent) → List (List ℕ × List ℕ)
  lines base [] = []
  lines base (x ∷ xs) =
      if can_open (full_path base (x.0))
      then (full_path base (x.0), log_str (x.1)) ∷ lines base xs
      else lines base xs

  -- The stream is open if the file of its date could be opened.
  abbrev Consistent : FileAppender → Type 0
  Consistent a = a.is_open ≡ can_open (full_path a.base_path a.current_date)

  rolled_lem :
      (today : List ℕ) (a : FileAppender)
      → Consistent a
      → check_roll_over can_open today a
        ≡ record a { current_date = today; is_open = can_open (full_path a.base_path today) }
  unfolding check_roll_over open_new_log_file
  rolled_lem today a c = elim (Bool-cases (same_text today a.current_date)) [
    | inl same ↦
        let e = same_text-eq today a.current_date same in
        if_true _ _ (same_text today a.current_date) same
        ∙ ap₂ (λ d b. record a { current_date = d; is_open = b }) (sym e)
            (c ∙ ap (λ d. can_open (full_path a.base_path d)) (sym e))
    | inr other ↦ if_false _ _ (same_text today a.current_date) other
  ]

  -- What appends do to a stream whose file is known.
  record Appended (xs : List (List ℕ × LogEvent)) (a a' : FileAppender) : Type 0 where
    base : a'.base_path ≡ a.base_path
    consistent : Consistent a'
    written : a'.written ≡ a.written ++ lines a.base_path xs

  append-Appended :
      (today : List ℕ) (e : LogEvent) (a : FileAppender)
      → Consistent a
      → Appended ((today, e) ∷ []) a (append can_open today e a)
  unfolding append
  append-Appended today e a c =
      let opened = can_open (full_path a.base_path today) in
      rw (rolled_lem today a c) (
        if_elim (Appended ((today, e) ∷ []) a) opened
          (λ h. record { base = refl; consistent = refl; written = rw h refl })
          (λ h. record {
            base = refl;
            consistent = refl;
            written = rw h (sym (append-nil a.written));
          }))

  Appended-nothing : (a : FileAppender) → Consistent a → Appended [] a a
  Appended-nothing a c = record {
    base = refl;
    consistent = c;
    written = sym (append-nil a.written);
  }

  lines-append :
      (base : List ℕ) (xs ys : List (List ℕ × LogEvent))
      → lines base (xs ++ ys) ≡ lines base xs ++ lines base ys
  lines-append base [] ys = refl
  lines-append base (x ∷ xs) ys = ground (arith, lines-append base xs ys)

  Appended-trans :
      (xs ys : List (List ℕ × LogEvent)) {a a1 a2 : FileAppender}
      → Appended xs a a1
      → Appended ys a1 a2
      → Appended (xs ++ ys) a a2
  Appended-trans xs ys {a} s t = record {
    base = t.base ∙ s.base;
    consistent = t.consistent;
    written =
        t.written
        ∙ (ap₂ (λ w b. w ++ lines b ys) s.written s.base
            ∙ (append_assoc a.written (lines a.base_path xs) (lines a.base_path ys)
                ∙ ap (λ l. a.written ++ l) (sym (lines-append a.base_path xs ys))));
  }

  append_all-Appended :
      (xs : List (List ℕ × LogEvent)) (a : FileAppender)
      → Consistent a
      → Appended xs a (append_all can_open xs a)
  unfolding append_all
  append_all-Appended [] a c = Appended-nothing a c
  append_all-Appended (x ∷ xs) a c =
      let first = append-Appended (x.0) (x.1) a c in
      Appended-trans (x ∷ []) xs first (append_all-Appended xs _ first.consistent)

  append_errors-Appended :
      (xs : List (List ℕ × LogEvent)) (a : FileAppender)
      → Consistent a
      → Appended (dated_errors xs) a (append_errors can_open xs a)
  unfolding append_errors append_error
  append_errors-Appended [] a c = Appended-nothing a c
  append_errors-Appended (x ∷ xs) a c = elim (Bool-cases (is_error (x.1))) [
    | inl kept ↦
        let first = append-Appended (x.0) (x.1) a c in
        rw kept (
          Appended-trans (x ∷ []) (dated_errors xs) first
            (append_errors-Appended xs _ first.consistent))
    | inr passed ↦ rw passed (append_errors-Appended xs a c)
  ]

  -- The lines of a file appender, from its construction on: one line for each event, in order,
  -- each in the file of the date of its call, and none for a date whose file cannot be opened; the
  -- error appender does the same with the events from ERROR on.
  pub append_all-lines :
      (base today : List ℕ) (xs : List (List ℕ × LogEvent))
      → ((append_all can_open xs (new can_open base today)).written ≡ lines base xs)
        × ((append_errors can_open xs (new can_open base today)).written
            ≡ lines base (dated_errors xs))
  unfolding new open_new_log_file
  append_all-lines base today xs = (
    (append_all-Appended xs (new can_open base today) refl).written,
    (append_errors-Appended xs (new can_open base today) refl).written,
  )
