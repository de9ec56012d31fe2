-- ===== src/Strings/Tests.antt =====
-- The results about strings at small strings.
use valiant.Prelude.{
  refl, Bool, Bytes, [], ◌∷◌, ltb, ◌&&◌, length, ◌≡◌, ◌↔◌, inl, inr, true, ◌++◌, codes, arith,
}
use valiant.Prelude.Int.{pos}
use valiant.Strings.{Text, ok, tolower_c, strcasecmp_c, string_append}
use valiant.Strings.Compared.{strcasecmp_c-zero}
use valiant.Strings.Grown.{IsSane, string_append_lem}

strcasecmp_c-zero_example :
    (strcasecmp_c (codes "Zone") (codes "zero") ≡ pos 0)
    ↔ ((tolower_c 90 ≡ tolower_c 122) × (length (codes "one") ≡ length (codes "ero")))
strcasecmp_c-zero_example =
    strcasecmp_c-zero 90 122 (codes "one") (codes "ero")
      (omega arith, (omega arith, (omega arith, (omega arith, tt))))
      (omega arith, (omega arith, (omega arith, (omega arith, tt))))

abbrev four : Text
four = record { bytes = codes "ab"; allocated = true; lim = 4; len = 2; position = 0 }

-- Every string of bytes below 128 is well encoded.
abbrev ascii : Bytes → Bool
ascii [] = true
ascii (c ∷ chrs) = ltb c 128 && ascii chrs

ascii-append : (a b : Bytes) → ascii a ≡ true → ascii b ≡ true → ascii (a ++ b) ≡ true
ascii-append [] b h k = k
ascii-append (c ∷ a) b h k = ground (arith, h, ascii-append a b (ground (arith, h)) k)

four-IsSane : IsSane ascii four
four-IsSane = record {
  inside = omega arith;
  room = omega arith;
  limited = inl (omega arith);
  encoded = refl;
  small = omega arith;
}

string_append_lem_example :
    ((string_append ascii four (codes "cd") true).1 ≡ ok)
    × ((string_append ascii four (codes "cd") true).0.bytes ≡ codes "ab" ++ codes "cd")
    × IsSane ascii (string_append ascii four (codes "cd") true).0
string_append_lem_example =
    string_append_lem ascii ascii-append four (codes "cd") four-IsSane (omega arith) refl
      (omega arith) (inr (omega arith))
