-- ===== src/ThreadPool/Chain.antt =====
-- The linked list of tasks in its store of cells (src/thread_pool.c, src/slist.c): chains, and a
-- chain after a cell is put behind it or freed.
use valiant.Prelude.{
  ℕ, zero, suc, ◌≤◌, ◌<◌, ◌≡◌, refl, sym, subst, ◌∙◌, ◌≢◌, Option, none, some, List, [], ◌∷◌, ◌++◌,
  arith, length, get_elem?, set, get_elem?-set_self, get_elem?-set_ne, Option-cases, inl, inr,
}
use valiant.ThreadPool.{Pointer, Cell, Store, link}

abbrev pub cell : {A : Type 0} → A → Pointer → Option (Option (Cell A))
cell x p = some (some (record { item = x; next = p }))

-- A chain from the cell `a` to the cell `z`, with `x` and `xs` as its items. A cell was allocated
-- after the one before it, so no cell comes twice.
pub data Segment {A : Type 0} (s : Store A) : ℕ → ℕ → ℕ → A → List A → Type 0 where
  final :
      {low a z : ℕ} {x : A} → low ≤ a → a ≡ z → get_elem? s a ≡ cell x none → Segment s low a z x []
  before :
      {low a z : ℕ} {x y : A} {ys : List A} (b : ℕ)
      → low ≤ a
      → get_elem? s a ≡ cell x (some b)
      → Segment s (suc a) b z y ys
      → Segment s low a z x (y ∷ ys)

get_elem?-lt : {B : Type 0} (s : List B) (i : ℕ) {c : B} → get_elem? s i ≡ some c → i < length s
get_elem?-lt [] i h = ground arith
get_elem?-lt (x ∷ s) zero h = omega arith
get_elem?-lt (x ∷ s) (suc i) h = omega (arith, get_elem?-lt s i h)

pub get_elem?-append_lt :
    {B : Type 0} (s t : List B) (i : ℕ) → i < length s → get_elem? (s ++ t) i ≡ get_elem? s i
get_elem?-append_lt [] t i h = absurd (omega arith)
get_elem?-append_lt (x ∷ s) t zero h = refl
get_elem?-append_lt (x ∷ s) t (suc i) h = get_elem?-append_lt s t i (omega arith)

pub get_elem?-append_last :
    {B : Type 0} (s : List B) (c : B) → get_elem? (s ++ c ∷ []) (length s) ≡ some c
get_elem?-append_last [] c = refl
get_elem?-append_last (x ∷ s) c = get_elem?-append_last s c

-- The pointers to the first and the last cell, and the items between.
pub data Chain {A : Type 0} (s : Store A) : Pointer → Pointer → List A → Type 0 where
  empty : {first last : Pointer} → first ≡ none → last ≡ none → Chain s first last []
  between :
      {first last : Pointer} {x : A} {xs : List A} (a z : ℕ)
      → first ≡ some a
      → last ≡ some z
      → Segment s 0 a z x xs
      → Chain s first last (x ∷ xs)

module _ {A : Type 0} where
  -- The cells of a segment lie in order, in the store.
  pub Segment-bounds :
      (xs : List A) {s : Store A} {low a z : ℕ} {x : A}
      → Segment s low a z x xs
      → (low ≤ a) × (a ≤ z) × (z < length s)
  Segment-bounds [] {s = s} {a = a} (final l e g) = ground (arith, get_elem?-lt s a g)
  Segment-bounds (y ∷ ys) (before b l g r) = ground (arith, Segment-bounds ys r)

  pub Segment-weaken :
      (xs : List A) {s : Store A} {low low' a z : ℕ} {x : A}
      → low' ≤ low
      → Segment s low a z x xs
      → Segment s low' a z x xs
  Segment-weaken [] h (final l e g) = final (omega arith) e g
  Segment-weaken (y ∷ ys) h (before b l g r) = before b (omega arith) g r

  -- A cell before a segment is none of its own.
  pub Segment-set :
      (xs : List A) (c : Option (Cell A)) {s : Store A} {low a z k : ℕ} {x : A}
      → k < low
      → Segment s low a z x xs
      → Segment (set s k c) low a z x xs
  Segment-set [] c {s = s} h (final l e g) =
      final l e (get_elem?-set_ne s c (λ e. omega (arith, e)) ∙ g)
  Segment-set (y ∷ ys) c {s = s} h (before b l g r) =
      before b l (get_elem?-set_ne s c (λ e. omega (arith, e)) ∙ g)
        (Segment-set ys c (omega arith) r)

  -- A chain in a store that keeps all its cells, but for the last, which leads to a new one.
  Segment-extend :
      (xs : List A) {s t : Store A} {low a z n : ℕ} {x d : A}
      → ((i : ℕ) → i < z → get_elem? t i ≡ get_elem? s i)
      → ((y : A) → get_elem? s z ≡ cell y none → get_elem? t z ≡ cell y (some n))
      → get_elem? t n ≡ cell d none
      → z < n
      → Segment s low a z x xs
      → Segment t low a n x (xs ++ d ∷ [])
  Segment-extend [] {s = s} {t = t} {n = n} {x = x} keep turn new lt (final l e g) =
      before n l
        (subst (λ i. get_elem? t i ≡ cell x (some n)) (sym e)
          (turn x (subst (λ i. get_elem? s i ≡ cell x none) e g)))
        (final (omega arith) refl new)
  Segment-extend (y ∷ ys) {a = a} keep turn new lt (before b l g r) =
      before b l (keep a (ground (arith, Segment-bounds ys r)) ∙ g)
        (Segment-extend ys keep turn new lt r)

  -- The cell that `link` writes.
  link_self :
      (s : Store A) (z n : ℕ) (y : A) (p : Pointer)
      → get_elem? s z ≡ cell y p
      → get_elem? (link s z n) z ≡ cell y (some n)
  unfolding link
  link_self s z n y p h = grind (
    arith,
    get_elem?-set_self s z (some (record { item = y; next = some n })) (get_elem?-lt s z h),
  )

  link_ne : (s : Store A) (z n i : ℕ) → z ≢ i → get_elem? (link s z n) i ≡ get_elem? s i
  unfolding link
  link_ne s z n i h = elim (Option-cases (get_elem? s z)) [
    | inl e ↦ rw (link, e) refl
    | inr (none, e) ↦ rw (link, e) refl
    | inr (some c, e) ↦ rw (link, e) (get_elem?-set_ne s (some (record c { next = some n })) h)
  ]

  -- Putting a new cell behind a chain, as a push does.
  pub Segment-push :
      (s : Store A) (d : A) {low a z : ℕ} {x : A} (xs : List A)
      → Segment s low a z x xs
      → Segment
          (link (s ++ some (record { item = d; next = none }) ∷ []) z (length s))
          low
          a
          (length s)
          x
          (xs ++ d ∷ [])
  Segment-push s d {z = z} xs g =
      let t = s ++ some (record { item = d; next = none }) ∷ [] in
      let lt : z < length s = (Segment-bounds xs g).2 in
      Segment-extend xs
        (λ i h.
          link_ne t z (length s) i (λ e. omega (arith, e))
          ∙ get_elem?-append_lt s _ i (omega arith))
        (λ y h. link_self t z (length s) y none (get_elem?-append_lt s _ z lt ∙ h))
        (link_ne t z (length s) (length s) (λ e. omega (arith, e))
          ∙ get_elem?-append_last s (some (record { item = d; next = none })))
        lt g
