-- ===== src/PidFile/Tests.antt =====
-- The results about the file of the process at a number.
use valiant.Prelude.{
  ◌≡◌, refl, false, none, some, [], ◌∷◌, ◌==◌, ◌||◌, if◌then◌else◌, codes, Bytes, length, drop,
  char_at, arith,
}
use valiant.PidFile.{isspace, isdigit, bytes, pid_file_read, written, decimal}
use valiant.PidFile.Rounds.{pid_file_read-written}

-- what the stack holds, behind three bytes
abbrev junk : Bytes
junk = codes "abc\n"

text : written 123 ≡ codes "123"
unfolding written decimal
text = refl

no_digit : isdigit (char_at (drop (length (written 123)) junk) 0) ≡ false
unfolding isdigit written decimal
no_digit = refl

pid_file_read-written_example : pid_file_read junk (bytes (written 123) ∷ []) ≡ (
    if char_at (drop (length (written 123)) junk) 0 == 0
      || isspace (char_at (drop (length (written 123)) junk) 0)
    then some 123
    else none)
pid_file_read-written_example = pid_file_read-written junk 123 (omega arith) no_digit
