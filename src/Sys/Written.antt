-- ===== src/Sys/Written.antt =====
-- `sys_write` and `sys_writev`: they end, and what they put out and count.
use visual_os.Base.{
  ℕ, zero, suc, ◌+◌, ◌-◌, ◌%◌, ◌≤◌, ◌<◌, ◌≡◌, refl, false, arith, ◌==◌, ◌||◌, ltb, if◌then◌else◌,
  u64_mod, add64, ◌∙◌, inl, inr, Bool-cases, List, [], ◌∷◌, ◌++◌, le→ltb, Option-cases, ap, sym,
}
use mathlib.Core.List.{append-nil, append_assoc}
use native.Mathlib.Nat.{zero-add}
use visual_os.Base.Run.{Run, ok}
use visual_os.Text.{Screen, text_output_size, text_handle_ansi_color, text_output_char}
use visual_os.Sys.{
  Iovec, Outputs, sys_fd_stdout, sys_fd_stderr, log_output_size, sys_write, writev_loop, sys_writev,
  in_screen,
}

-- Each round goes on by a byte or more.
stops :
    (fuel i : ℕ) (str : ℕ → ℕ) (size : ℕ) (s : Screen)
    → ltb i size ≡ false
    → text_output_size (suc fuel) i str size s ≡ ok tt s
unfolding text_output_size
stops fuel i str size s h = rw (h, text_output_size) refl

pub text_output_size-ends :
    (fuel i : ℕ) (str : ℕ → ℕ) (size : ℕ) (s : Screen)
    → size ≤ fuel + i
    → (t : Screen) × (text_output_size (suc fuel) i str size s ≡ ok tt t)
unfolding text_output_size
text_output_size-ends zero i str size s h = (s, stops 0 i str size s (le→ltb i size (omega arith)))
text_output_size-ends (suc fuel) i str size s h = elim (Bool-cases (ltb i size)) [
  | inr done ↦ (s, stops (suc fuel) i str size s done)
  | inl more ↦ elim (Option-cases (text_handle_ansi_color str i s).0) [
    | inl e ↦
        let (t, run) =
          text_output_size-ends fuel (i + 1) str size
            (text_output_char (str i) (text_handle_ansi_color str i s).1) (omega arith) in
        (t, rw (more, e, text_output_size) run)
    | inr (index, e) ↦
        let (t, run) =
          text_output_size-ends fuel (i + (index - 1) + 1) str size
            (text_handle_ansi_color str i s).1 (omega arith) in
        (t, rw (more, e, text_output_size) run)
  ]
]

-- The bytes from an address on.
abbrev pub bytes : (memory : ℕ → ℕ) → (str size : ℕ) → List ℕ
bytes memory str zero = []
bytes memory str (suc size) = memory str ∷ bytes memory (str + 1) size

abbrev pub all_bytes : (memory : ℕ → ℕ) → List Iovec → List ℕ
all_bytes memory [] = []
all_bytes memory (target ∷ rest) =
    bytes memory target.iov_base target.iov_len ++ all_bytes memory rest

abbrev pub all_lengths : List Iovec → ℕ
all_lengths [] = 0
all_lengths (target ∷ rest) = target.iov_len + all_lengths rest

log_output_size-bytes :
    (memory : ℕ → ℕ) (str size : ℕ) (serial : List ℕ)
    → log_output_size memory str size serial ≡ serial ++ bytes memory str size
unfolding log_output_size
log_output_size-bytes memory str zero serial = sym (append-nil serial)
log_output_size-bytes memory str (suc size) serial =
    log_output_size-bytes memory (str + 1) size (serial ++ memory str ∷ [])
    ∙ append_assoc serial (memory str ∷ []) (bytes memory (str + 1) size)

-- What the calls put out on the serial port, and what they return before it is cut to 64 bits.
abbrev pub sent : (memory : ℕ → ℕ) → (fd : ℕ) → List Iovec → List ℕ
sent memory fd vec = if fd == sys_fd_stderr then all_bytes memory vec else []

abbrev pub counted : (fd : ℕ) → List Iovec → ℕ
counted fd vec = if fd == sys_fd_stdout || fd == sys_fd_stderr then all_lengths vec else 0

-- A run that returns `total`, and has put out these bytes; the screen changes only by text for the
-- standard output.
pub record IsWritten (fd : ℕ) (s : Outputs) (bytes : List ℕ) (total : ℕ) (r : Run Outputs ℕ)
    : Type 0 where
  pub after : Outputs
  pub run : r ≡ ok total after
  pub serial : after.serial ≡ s.serial ++ bytes
  pub screen : (fd == sys_fd_stdout) ≡ false → after.screen ≡ s.screen

module _ (memory : ℕ → ℕ) (fd : ℕ) where
  abbrev sent_once : Iovec → List ℕ
  sent_once target = if fd == sys_fd_stderr then bytes memory target.iov_base target.iov_len else []

  abbrev counted_once : Iovec → ℕ
  counted_once target = if fd == sys_fd_stdout || fd == sys_fd_stderr then target.iov_len else 0

  sent-append :
      (target : Iovec) (rest : List Iovec)
      → sent memory fd (target ∷ rest) ≡ sent_once target ++ sent memory fd rest
  sent-append target rest = elim (Bool-cases (fd == sys_fd_stderr)) [
    | inl e ↦ rw e refl
    | inr e ↦ rw e refl
  ]

  write-IsWritten :
      (s : Outputs) (target : Iovec)
      → IsWritten fd s
          (sent_once target)
          (counted_once target)
          (sys_write memory fd target.iov_base target.iov_len s)
  unfolding sys_write
  write-IsWritten s target = elim (Bool-cases (fd == sys_fd_stdout)) [
    | inl out ↦
        let (t, run) =
          text_output_size-ends target.iov_len 0 (λ i. memory (target.iov_base + i)) target.iov_len
            s.screen (omega arith) in
        let other : (fd == sys_fd_stderr) ≡ false = ground arith in
        rw (out, other)
          (record {
            after = record s { screen = t };
            run = rw (run, in_screen) refl;
            serial = sym (append-nil s.serial);
            screen = λ e. absurd (ground (arith, e));
          })
    | inr e ↦ elim (Bool-cases (fd == sys_fd_stderr)) [
      | inl err ↦
          rw (e, err)
            (record {
              after = record s {
                serial = log_output_size memory target.iov_base target.iov_len s.serial;
              };
              run = refl;
              serial = log_output_size-bytes memory target.iov_base target.iov_len s.serial;
              screen = λ _. refl;
            })
      | inr no_output ↦
          rw (e, no_output)
            (record {
              after = s;
              run = refl;
              serial = sym (append-nil s.serial);
              screen = λ _. refl;
            })
    ]
  ]

  loop-IsWritten :
      (vec : List Iovec) (total : ℕ) (s : Outputs)
      → total < u64_mod
      → IsWritten fd s
          (sent memory fd vec)
          ((total + counted fd vec) % u64_mod)
          (writev_loop memory fd vec total s)
  unfolding writev_loop
  loop-IsWritten [] total s h = record {
    after = s;
    run = ap (λ n. ok n s) (ground arith);
    serial = sym (append-nil s.serial) ∙ ap (λ (l : List ℕ). s.serial ++ l) (ground arith);
    screen = λ _. refl;
  }
  loop-IsWritten (target ∷ rest) total s h =
      let w : IsWritten fd s (sent_once target) (counted_once target)
          (sys_write memory fd target.iov_base target.iov_len s) =
        write-IsWritten s target in
      let r : IsWritten fd w.after (sent memory fd rest)
          ((add64 total (counted_once target) + counted fd rest) % u64_mod)
          (writev_loop memory fd rest (add64 total (counted_once target)) w.after) =
        loop-IsWritten rest (add64 total (counted_once target)) w.after (omega arith) in
      record {
        after = r.after;
        run = rw w.run (r.run ∙ ap (λ n. ok n r.after) (ground arith));
        serial =
            r.serial
            ∙ rw (w.serial, sent-append target rest)
                (append_assoc s.serial (sent_once target) (sent memory fd rest));
        screen = λ e. r.screen e ∙ w.screen e;
      }

  -- sys_writev returns, for every list of buffers: for the standard output and error the sum of
  -- their lengths, cut to 64 bits, and 0 for any other file. To the serial port it sends the bytes of
  -- the buffers, in order, for the standard error, and nothing otherwise; and the screen changes only
  -- for the standard output.
  pub sys_writev-IsWritten :
      (vec : List Iovec) (s : Outputs)
      → IsWritten fd s (sent memory fd vec) (counted fd vec % u64_mod) (sys_writev memory fd vec s)
  unfolding sys_writev
  sys_writev-IsWritten vec s = rw zero-add at (loop-IsWritten vec 0 s (omega arith))
