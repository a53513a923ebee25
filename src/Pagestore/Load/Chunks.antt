-- ===== src/Pagestore/Load/Chunks.antt =====
-- The list pages' parts of the entries make up the entries.
use scutedb.Base.{ℕ, zero, suc, ◌+◌, ◌-◌, ◌*◌, ◌≤◌, ◌≡◌, refl, sym, ap, ap₂, ◌∙◌, arith, subst}
use scutedb.Base.{
  List, [], ◌∷◌, ◌++◌, length, All, take, drop, length-take, length-drop, take-append-drop,
  take-all, ltb, ltb→lt, if-cases,
}
use scutedb.Pagestore.Types.{free_list_capacity}
use scutedb.Pagestore.Checkpoint.{chunk}

drop-nil : (k : ℕ) → drop {A = ℕ} k [] ≡ []
drop-nil zero = refl
drop-nil (suc k) = refl

drop-drop : (a b : ℕ) (xs : List ℕ) → drop a (drop b xs) ≡ drop (b + a) xs
drop-drop a zero xs = ap (λ k. drop k xs) (omega arith)
drop-drop a (suc b) [] = drop-nil a ∙ sym (drop-nil (suc b + a))
drop-drop a (suc b) (x ∷ xs) =
    drop-drop a b xs ∙ ap (λ k. drop k (x ∷ xs)) {x = suc (b + a)} {y = suc b + a} (omega arith)

drop-all : (k : ℕ) (xs : List ℕ) → length xs ≤ k → drop k xs ≡ []
drop-all zero [] h = refl
drop-all zero (x ∷ xs) h = absurd (omega arith)
drop-all (suc k) [] h = refl
drop-all (suc k) (x ∷ xs) h = drop-all k xs (omega arith)

pub All-take : (P : ℕ → Type 0) (k : ℕ) (xs : List ℕ) → All P xs → All P (take k xs)
All-take P zero xs h = tt
All-take P (suc k) [] h = tt
All-take P (suc k) (x ∷ xs) h = (h.0, All-take P k xs h.1)

pub All-drop : (P : ℕ → Type 0) (k : ℕ) (xs : List ℕ) → All P xs → All P (drop k xs)
All-drop P zero xs h = h
All-drop P (suc k) [] h = tt
All-drop P (suc k) (x ∷ xs) h = All-drop P k xs h.1

chunk-take :
    (es : List ℕ) (i : ℕ) → chunk es i ≡ take free_list_capacity (drop (i * free_list_capacity) es)
unfolding chunk
chunk-take es i =
    if-cases (λ hi. take (hi - i * 1019) (drop (i * 1019) es) ≡ take 1019 (drop (i * 1019) es))
      (ltb (length es) (i * 1019 + 1019)) _ _
      (λ e.
        let short : length (drop (i * 1019) es) ≤ 1019 =
          omega (arith, ltb→lt _ _ e, length-drop (i * 1019) es) in
        take-all (length es - i * 1019) (drop (i * 1019) es)
          (omega (arith, length-drop (i * 1019) es))
        ∙ sym (take-all 1019 (drop (i * 1019) es) short))
      (λ e. ap (λ k. take k (drop (i * 1019) es)) {y = 1019} (omega arith))

pub length-chunk : (es : List ℕ) (i : ℕ) → length (chunk es i) ≤ free_list_capacity
length-chunk es i =
    omega (arith, ap length (chunk-take es i), length-take 1019 (drop (i * 1019) es))

pub All-chunk : (P : ℕ → Type 0) (es : List ℕ) (i : ℕ) → All P es → All P (chunk es i)
All-chunk P es i h =
    subst (All P) (sym (chunk-take es i)) (All-take P 1019 _ (All-drop P (i * 1019) es h))

-- The entries on the list pages from the `i`-th on.
abbrev pub chunks : List ℕ → ℕ → List ℕ → List ℕ
chunks es i [] = []
chunks es i (id ∷ ids) = chunk es i ++ chunks es (i + 1) ids

chunks-drop :
    (es : List ℕ) (i : ℕ) (ids : List ℕ)
    → length es ≤ (i + length ids) * free_list_capacity
    → chunks es i ids ≡ drop (i * free_list_capacity) es
chunks-drop es i [] h = sym (drop-all (i * 1019) es (omega arith))
chunks-drop es i (id ∷ ids) h =
    ap₂ (λ xs ys. xs ++ ys) (chunk-take es i)
      (chunks-drop es (i + 1) ids (omega arith)
        ∙ ap (λ k. drop k es) {x = (i + 1) * 1019} {y = i * 1019 + 1019} (omega arith)
        ∙ sym (drop-drop 1019 (i * 1019) es))
    ∙ take-append-drop 1019 (drop (i * 1019) es)

-- As many list pages as the entries need hold them all, in order.
pub chunks-all :
    (es ids : List ℕ) → length es ≤ length ids * free_list_capacity → chunks es 0 ids ≡ es
chunks-all es ids h = chunks-drop es 0 ids (omega arith)
