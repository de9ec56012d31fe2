-- ===== src/Request/Buffer.antt =====
-- The growable buffers `vt_buf_t` of buf.h, which is not part of the repository: a parameter.
use valiant.Prelude.{ℕ, ◌≤◌, ◌≡◌, refl, Option, some, Bytes, take, length}

-- `vt_buf_ncpy (buf, str, len)` is `none` where it returns NULL, else the buffer afterwards.
-- `vt_buf_str (buf)` is the C string that the buffer holds, `none` for NULL.
pub record Buffers : Type 1 where
  pub Buf : Type 0
  pub ncpy : Buf → Bytes → ℕ → Option Buf
  pub str : Buf → Option Bytes

-- With memory at hand a copy succeeds, and a buffer holds what was copied into it last.
pub record StoresCopies (B : Buffers) : Type 0 where
  pub copies :
      (b : B.Buf) (s : Bytes) (n : ℕ)
      → n ≤ length s
      → (c : B.Buf) × (B.ncpy b s n ≡ some c) × (B.str c ≡ some (take n s))

-- Buffers that are the strings themselves.
abbrev pub plain : Buffers
plain = record { Buf = Option Bytes; ncpy = λ b s n. some (some (take n s)); str = λ b. b }

pub plain-StoresCopies : StoresCopies plain
plain-StoresCopies = record { copies = λ b s n h. (some (take n s), refl, refl) }
