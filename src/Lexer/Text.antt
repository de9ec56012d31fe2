-- ===== src/Lexer/Text.antt =====
-- What stands between the quotes of a string (src/lexer.c): the text, and the escapes it is written with.
use valiant.Prelude.{
  ap₂, subst, ==_iff, ◌⊎◌, ℕ, ◌<◌, ◌≡◌, ◌≢◌, refl, sym, ap, ◌∙◌, Bool, true, false, ◌||◌, List, [],
  ◌∷◌, ◌++◌, ◌==◌, if◌then◌else◌, arith, Bool-cases, inl, inr,
}
use valiant.Lexer.{backslash, control, ends}

-- Whether a string is closed: a quote or a 0 comes before its end, and is not escaped.
unfoldable pub closed : ℕ → (esc : Bool) → List ℕ → Bool
closed quot esc [] = false
closed quot true (c ∷ str) = closed quot false str
closed quot false (c ∷ str) =
    let escaped = closed quot true str in
    let more = closed quot false str in ends quot c || (if c == backslash then escaped else more)

-- The text between the quotes of a string: what the escapes of double quotes stand for.
unfoldable pub text_dquot : (quot : ℕ) → (esc : Bool) → List ℕ → List ℕ
unfolding ends control
text_dquot quot esc [] = []
text_dquot quot true (c ∷ str) = control c ∷ text_dquot quot false str
text_dquot quot false (c ∷ str) =
    let escaped = text_dquot quot true str in
    let more = c ∷ text_dquot quot false str in
    if ends quot c then [] else if c == backslash then escaped else more

-- The same for single quotes, where a backslash stays but before a quote.
unfoldable pub text_squot : (quot : ℕ) → (esc : Bool) → List ℕ → List ℕ
unfolding ends
text_squot quot esc [] = []
text_squot quot true (c ∷ str) =
    let rest = c ∷ text_squot quot false str in if c == quot then rest else backslash ∷ rest
text_squot quot false (c ∷ str) =
    let escaped = text_squot quot true str in
    let more = c ∷ text_squot quot false str in
    if ends quot c then [] else if c == backslash then escaped else more

pub control-cases : (c : ℕ) → (control c ≡ c) ⊎ ((c < 128) × (control c < 128))
unfolding control
control-cases c = ground arith

control_zero : control 0 ≡ 0
unfolding control
control_zero = refl

control-backslash : control backslash ≡ backslash
unfolding control
control-backslash = refl

-- A text as it is written between quotes: a backslash before each quote, backslash and 0.
unfoldable pub escape : ℕ → List ℕ → List ℕ
escape quot [] = []
escape quot (c ∷ s) =
    let rest = c ∷ escape quot s in if ends quot c || c == backslash then backslash ∷ rest else rest

write_escaped :
    (quot c : ℕ) (str : List ℕ)
    → quot ≢ backslash
    → text_dquot quot false (backslash ∷ c ∷ str) ≡ control c ∷ text_dquot quot false str
unfolding text_dquot ends
write_escaped quot c str k = ground (arith, k)

write_plain :
    (quot c : ℕ) (str : List ℕ)
    → (ends quot c || c == backslash) ≡ false
    → text_dquot quot false (c ∷ str) ≡ c ∷ text_dquot quot false str
unfolding text_dquot
write_plain quot c str e = ground (arith, e)

control-special :
    (quot c : ℕ) → control quot ≡ quot → (ends quot c || c == backslash) ≡ true → control c ≡ c
unfolding ends
control-special quot c h e = elim (Bool-cases (c == quot)) [
  | inl k ↦ subst (λ x. control x ≡ x) (sym ((==_iff c quot).0 k)) h
  | inr k ↦ elim (Bool-cases (c == 0)) [
    | inl j ↦ subst (λ x. control x ≡ x) (sym ((==_iff c 0).0 j)) control_zero
    | inr j ↦
        subst (λ x. control x ≡ x) (sym ((==_iff c backslash).0 (ground (arith, e, k, j))))
          control-backslash
  ]
]

pub text_dquot-escape :
    (quot : ℕ) (s : List ℕ)
    → control quot ≡ quot
    → quot ≢ backslash
    → text_dquot quot false (escape quot s ++ quot ∷ []) ≡ s
unfolding text_dquot escape ends
text_dquot-escape quot [] h k = ground arith
text_dquot-escape quot (c ∷ s) h k = elim (Bool-cases (ends quot c || c == backslash)) [
  | inl e ↦
      rw (escape, e)
        (write_escaped quot c (escape quot s ++ quot ∷ []) k
          ∙ ap₂ (λ x l. x ∷ l) (control-special quot c h e) (text_dquot-escape quot s h k))
  | inr e ↦
      rw (escape, e)
        (write_plain quot c (escape quot s ++ quot ∷ []) e
          ∙ ap (λ l. c ∷ l) (text_dquot-escape quot s h k))
]

-- Such a text is closed by its quote.
pub closed-escape : (quot : ℕ) (s : List ℕ) → closed quot false (escape quot s ++ quot ∷ []) ≡ true
unfolding closed escape ends
closed-escape quot [] = ground arith
closed-escape quot (c ∷ s) = ground (arith, closed-escape quot s)
