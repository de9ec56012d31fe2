-- ===== src/PidFile.antt =====
-- The file that holds the number of the process (src/utils.c): `pid_file_read`, and the text that
-- `pid_file_write` writes. A pid_t is a number that does not wrap.
pub mod Rounds
mod Tests
use valiant.Prelude.{
  ℕ, zero, suc, ◌+◌, ◌-◌, ◌*◌, ◌/◌, ◌%◌, Bool, true, false, not, ◌&&◌, ◌||◌, Option, none, some,
  List, [], ◌∷◌, ◌++◌, ◌==◌, ltb, leb, if◌then◌else◌, Bytes, length, drop,
}

-- `isdigit` and `isspace` of the C locale
unfoldable pub isdigit : ℕ → Bool
isdigit c = leb 48 c && leb c 57

unfoldable pub isspace : ℕ → Bool
isspace c = c == 32 || (leb 9 c && leb c 13)

-- What a call of `read` brings; behind the last one the file ends.
pub data Read : Type 0 where
  bytes : Bytes → Read
  interrupted failed : Read

-- The loop over `buf` up to its terminator: `pid`, and whether `err` is set.
unfoldable pub scan : (pid : ℕ) → Bytes → ℕ × Bool
unfolding isdigit isspace
scan pid [] = (pid, false)
scan pid (c ∷ buf) =
    let more = scan (pid * 10 + (c - 48)) buf in
    let first = scan (c - 48) buf in
    let skipped = scan pid buf in
    if c == 0
    then (pid, false)
    else if ltb 0 pid
    then (if isdigit c then more else (pid, not (isspace c)))
    else if isdigit c
    then first
    else if isspace c
    then skipped
    else (pid, true)

-- `buf` once a call of `read` has written to its start; nothing is terminated behind that.
unfoldable pub filled : (buf new : Bytes) → Bytes
filled buf new = new ++ drop (length new) buf

-- The loop over the calls of `read`, which goes on when the text is bad.
unfoldable pub read_loop : (buf : Bytes) → List Read → (pid : ℕ) → (err : Bool) → ℕ × Bool
unfolding scan filled
read_loop buf [] pid err = (pid, err)
read_loop buf (interrupted ∷ reads) pid err = read_loop buf reads pid err
read_loop buf (failed ∷ reads) pid err = (pid, true)
read_loop buf (bytes new ∷ reads) pid err =
    let (pid', bad) = scan pid (filled buf new) in
    read_loop (filled buf new) reads pid' (err || bad)

-- `pid_file_read` where the file can be opened, with what is in `buf` before; `none` is -1.
unfoldable pub pid_file_read : (buf : Bytes) → List Read → Option ℕ
unfolding read_loop
pid_file_read buf reads =
    let (pid, err) = read_loop buf reads 0 false in if err || pid == 0 then none else some pid

-- `snprintf (buf, BUFLEN, "%d", pid)`, which has no more digits than `fuel`
unfoldable pub decimal : (fuel : ℕ) → ℕ → Bytes
decimal zero n = []
decimal (suc fuel) n =
    let rest = decimal fuel (n / 10) in
    if ltb n 10 then (n + 48) ∷ [] else rest ++ (n % 10 + 48) ∷ []

-- what `pid_file_write` writes; a number has fewer digits than it counts
unfoldable pub written : ℕ → Bytes
unfolding decimal
written pid = decimal (suc pid) pid
