-- ===== src/PidFile/Rounds.antt =====
-- Reading the file that was written (src/utils.c).
use valiant.Prelude.{
  ℕ, zero, suc, ◌+◌, ◌-◌, ◌*◌, ◌/◌, ◌%◌, ◌<◌, ◌≡◌, refl, true, false, not, ◌||◌, none, some, [],
  ◌∷◌, ◌++◌, ◌==◌, ltb, if◌then◌else◌, Bytes, length, drop, arith, Bool-cases, inl, inr, ◌∙◌, ap,
  char_at,
}
use mathlib.Core.List.{append_assoc}
use valiant.PidFile.{
  isdigit, isspace, bytes, scan, filled, read_loop, pid_file_read, decimal, written,
}

isdigit_lem : (d : ℕ) → d < 10 → isdigit (d + 48) ≡ true
unfolding isdigit
isdigit_lem d k = ground arith

scan_digit :
    (pid d : ℕ) (s : Bytes) → 0 < pid → d < 10 → scan pid ((d + 48) ∷ s) ≡ scan (pid * 10 + d) s
unfolding scan
scan_digit pid d s h k =
    let no_end : (d + 48 == 0) ≡ false = ground arith in
    let positive : ltb 0 pid ≡ true = ground arith in
    let digit : isdigit (d + 48) ≡ true = isdigit_lem d k in
    let value : d + 48 - 48 ≡ d = omega arith in simp (scan, no_end, positive, digit, value)

scan_first : (d : ℕ) (s : Bytes) → d < 10 → scan 0 ((d + 48) ∷ s) ≡ scan d s
unfolding scan
scan_first d s k =
    let no_end : (d + 48 == 0) ≡ false = ground arith in
    let digit : isdigit (d + 48) ≡ true = isdigit_lem d k in
    let value : d + 48 - 48 ≡ d = omega arith in simp (scan, no_end, digit, value)

scan-decimal : (fuel n : ℕ) (s : Bytes) → 0 < n → n < fuel → scan 0 (decimal fuel n ++ s) ≡ scan n s
unfolding decimal
scan-decimal zero n s h k = absurd (omega arith)
scan-decimal (suc fuel) n s h k = elim (Bool-cases (ltb n 10)) [
  | inl b ↦ rw b (scan_first n s (ground arith))
  | inr b ↦
      rw (b, append_assoc (decimal fuel (n / 10)) ((n % 10 + 48) ∷ []) s)
        (scan-decimal fuel (n / 10) ((n % 10 + 48) ∷ s) (ground arith) (ground arith)
          ∙ scan_digit (n / 10) (n % 10) s (ground arith) (omega arith)
          ∙ ap (λ m. scan m s) (omega arith))
]

-- where the digits end
scan_stop :
    (pid : ℕ) (s : Bytes)
    → 0 < pid
    → isdigit (char_at s 0) ≡ false
    → scan pid s ≡ (pid, not (char_at s 0 == 0 || isspace (char_at s 0)))
unfolding scan
scan_stop pid [] h k = refl
scan_stop pid (c ∷ s) h k =
    let positive : ltb 0 pid ≡ true = ground arith in
    elim (Bool-cases (c == 0)) [ inl e ↦ simp (scan, e) | inr e ↦ simp (scan, e, positive, k) ]

-- The number that was written is read back, where the byte that the buffer holds behind it is a
-- terminator or a space; it is refused where that byte is another one that is no digit.
pub pid_file_read-written :
    (buf : Bytes) (pid : ℕ)
    → 0 < pid
    → isdigit (char_at (drop (length (written pid)) buf) 0) ≡ false
    → pid_file_read buf (bytes (written pid) ∷ []) ≡ (
        if char_at (drop (length (written pid)) buf) 0 == 0
          || isspace (char_at (drop (length (written pid)) buf) 0)
        then some pid
        else none)
unfolding pid_file_read read_loop written filled
pid_file_read-written buf pid h k =
    let rest = drop (length (written pid)) buf in
    let scanned : scan 0 (written pid ++ rest)
        ≡ (pid, not (char_at rest 0 == 0 || isspace (char_at rest 0))) =
      scan-decimal (suc pid) pid rest h (omega arith) ∙ scan_stop pid rest h k in
    let positive : (pid == 0) ≡ false = ground arith in
    elim (Bool-cases (char_at rest 0 == 0 || isspace (char_at rest 0))) [
      | inl e ↦ simp (pid_file_read, read_loop, filled, scanned, e, positive)
      | inr e ↦ simp (pid_file_read, read_loop, filled, scanned, e, positive)
    ]
