-- ===== src/Context/Ranges.antt =====
-- The positions that checks and stages hold (src/context.c).
use valiant.Prelude.{
  ℕ, ◌<◌, ◌≡◌, ap, subst, some, List, [], ◌∷◌, if◌then◌else◌, Bytes, strcmp, strcmp_iff, arith,
  length, get_elem?, All, Bool-cases, Option-cases, inl, inr,
}
use valiant.Worker.{Check}
use valiant.Worker.Round.{Always, InRange}
use valiant.Context.{
  CheckSection, StageSection, get_dict_pos, depends_pos, check_create, checks_create, stage_create,
}

-- A position that is found is in range, and that of a dictionary of this name.
pub get_dict_pos_lem :
    (names : List Bytes) (dict : Bytes)
    → Always (λ i. (i < length names) × (get_elem? names i ≡ some dict)) (get_dict_pos names dict)
unfolding get_dict_pos
get_dict_pos_lem [] dict = tt
get_dict_pos_lem (name ∷ names) dict = elim (Bool-cases (strcmp name dict)) [
  | inl e ↦ rw (get_dict_pos, e) (omega arith, ap some ((strcmp_iff name dict).0 e))
  | inr e ↦ elim (Option-cases (get_dict_pos names dict)) [
    | inl k ↦ rw (get_dict_pos, e, k) tt
    | inr (i, k) ↦
        let (lt, at) =
          subst (Always (λ i. (i < length names) × (get_elem? names i ≡ some dict))) k
            (get_dict_pos_lem names dict) in
        rw (get_dict_pos, e, k) (omega (arith, lt), at)
  ]
]

depends_pos-All :
    (names dicts : List Bytes) → Always (All (λ d. d < length names)) (depends_pos names dicts)
unfolding depends_pos
depends_pos-All names [] = tt
depends_pos-All names (dict ∷ dicts) = elim (Option-cases (get_dict_pos names dict)) [
  | inl e ↦ rw (depends_pos, e) tt
  | inr (i, e) ↦ elim (Option-cases (depends_pos names dicts)) [
    | inl k ↦ rw (depends_pos, e, k) tt
    | inr (ds, k) ↦
        let p =
          subst (Always (λ i. (i < length names) × (get_elem? names i ≡ some dict))) e
            (get_dict_pos_lem names dict) in
        let q = subst (Always (All (λ d. d < length names))) k (depends_pos-All names dicts) in
        rw (depends_pos, e, k) (p.0, q)
  ]
]

Ranged : ℕ → Check → Type 0
Ranged n c = (c.dict < n) × All (λ d. d < n) c.depends

check_create-Ranged :
    (names : List Bytes) (sec : CheckSection)
    → Always (Ranged (length names)) (check_create names sec)
unfolding check_create Ranged
check_create-Ranged names sec = elim (Option-cases (get_dict_pos names sec.dict_name)) [
  | inl e ↦ rw (check_create, e) tt
  | inr (i, e) ↦ elim (Option-cases (depends_pos names sec.depends_names)) [
    | inl k ↦ rw (check_create, e, k) tt
    | inr (ds, k) ↦
        let p =
          subst (Always (λ i. (i < length names) × (get_elem? names i ≡ some sec.dict_name))) e
            (get_dict_pos_lem names sec.dict_name) in
        let q =
          subst (Always (All (λ d. d < length names))) k
            (depends_pos-All names sec.depends_names) in
        rw (check_create, e, k) (p.0, q)
  ]
]

checks_create-Ranged :
    (names : List Bytes) (secs : List CheckSection)
    → Always (All (Ranged (length names))) (checks_create names secs)
unfolding checks_create
checks_create-Ranged names [] = tt
checks_create-Ranged names (sec ∷ secs) = elim (Option-cases (check_create names sec)) [
  | inl e ↦ rw (checks_create, e) tt
  | inr (c, e) ↦ elim (Option-cases (checks_create names secs)) [
    | inl k ↦ rw (checks_create, e, k) tt
    | inr (cs, k) ↦
        let p = subst (Always (Ranged (length names))) e (check_create-Ranged names sec) in
        let q = subst (Always (All (Ranged (length names)))) k (checks_create-Ranged names secs) in
        rw (checks_create, e, k) (p, q)
  ]
]

-- A stage that is made of a configuration holds positions of dictionaries of the context only, in its
-- checks, their dependencies and its own: what the worker needs of it.
pub stage_create-InRange :
    (names : List Bytes) (sec : StageSection)
    → Always
        (λ stage. InRange (length names) stage × All (λ d. d < length names) stage.stage_depends)
        (stage_create names sec)
unfolding stage_create Ranged
stage_create-InRange names sec = elim (Option-cases (checks_create names sec.check_sections)) [
  | inl e ↦ rw (stage_create, e) tt
  | inr (cs, e) ↦
      elim (Option-cases (depends_pos names (if sec.is_stage then sec.stage_names else []))) [
        | inl k ↦ rw (stage_create, e, k) tt
        | inr (ds, k) ↦
            let p =
              subst (Always (All (Ranged (length names)))) e
                (checks_create-Ranged names sec.check_sections) in
            let q =
              subst (Always (All (λ d. d < length names))) k
                (depends_pos-All names (if sec.is_stage then sec.stage_names else [])) in
            rw (stage_create, e, k) (p, q)
      ]
]
