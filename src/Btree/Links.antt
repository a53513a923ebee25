-- ===== src/Btree/Links.antt =====
-- The chain of leaves: their addresses, and what `next` of each names.
use scutedb.Base.{
  ℕ, ◌+◌, ◌<◌, ◌≡◌, refl, sym, ◌∙◌, subst, arith, List, [], ◌∷◌, ◌++◌, append_assoc, append-nil,
  All, Option, none, some,
}
use scutedb.Btree.{Node, Nodes, leaf, internal, nil, cons}

abbrev pub Link : Type 0
Link = ℕ × Option ℕ

-- The leaves from left to right.
unfoldable mutual
  pub links : Node → List Link
  links (leaf addr keys rows next) = (addr, next) ∷ []
  links (internal keys children) = links_among children

  pub links_among : Nodes → List Link
  links_among nil = []
  links_among (cons c cs) = links c ++ links_among cs

abbrev pub first : List Link → Option ℕ
first [] = none
first ((a, nx) ∷ xs) = some a

-- Each leaf names the next one and the last one none, and no two have one address, all of which are
-- below `b`.
unfoldable pub IsChain : ℕ → List Link → Type 0
IsChain b [] = Unit {0}
IsChain b ((a, nx) ∷ xs) =
    (nx ≡ first xs) × (a < b) × All (λ (y : Link). ¬ (y.0 ≡ a)) xs × IsChain b xs

IsChain-weaken : (b : ℕ) (xs : List Link) → IsChain b xs → IsChain (b + 1) xs
unfolding IsChain
IsChain-weaken b [] h = tt
IsChain-weaken b ((a, nx) ∷ xs) (e, l, n, h) = (e, omega (arith, l), n, IsChain-weaken b xs h)

-- An address that no leaf has.
fresh_apart : (b : ℕ) (xs : List Link) → IsChain b xs → All (λ (y : Link). ¬ (y.0 ≡ b)) xs
unfolding IsChain
fresh_apart b [] h = tt
fresh_apart b ((a, nx) ∷ xs) (e, l, n, h) =
    ((λ q. absurd (omega (arith, q, l))), fresh_apart b xs h)

All-change :
    (P : Link → Type 0) (c d : List Link) (x y z : Link)
    → (P x → P y)
    → P z
    → All P (c ++ (x ∷ d))
    → All P (c ++ (y ∷ (z ∷ d)))
All-change P [] d x y z f g (a, h) = (f a, (g, h))
All-change P (w ∷ c) d x y z f g (a, h) = (a, All-change P c d x y z f g h)

All-merge :
    (P : Link → Type 0) (c d : List Link) (x y z : Link)
    → (P x → P z)
    → All P (c ++ (x ∷ (y ∷ d)))
    → All P (c ++ (z ∷ d))
All-merge P [] d x y z f (a, (b, h)) = (f a, h)
All-merge P (w ∷ c) d x y z f (a, h) = (a, All-merge P c d x y z f h)

first-same :
    (c d e : List Link) (a : ℕ) (nx ny : Option ℕ)
    → first (c ++ ((a, nx) ∷ d)) ≡ first (c ++ ((a, ny) ∷ e))
first-same [] d e a nx ny = refl
first-same (x ∷ c) d e a nx ny = refl

IsChain-split :
    (b : ℕ) (c d : List Link) (a : ℕ) (nx : Option ℕ)
    → IsChain b (c ++ ((a, nx) ∷ d))
    → IsChain (b + 1) (c ++ ((a, some b) ∷ ((b, nx) ∷ d)))
unfolding IsChain
IsChain-split b [] d a nx (e, l, n, h) = (
  refl,
  omega (arith, l),
  ((λ q. absurd (omega (arith, q, l))), n),
  (e, omega arith, fresh_apart b d h, IsChain-weaken b d h),
)
IsChain-split b ((x, nw) ∷ c) d a nx (e, l, n, h) = (
  e ∙ first-same c d ((b, nx) ∷ d) a nx (some b),
  omega (arith, l),
  All-change (λ (y : Link). ¬ (y.0 ≡ x)) c d (a, nx) (a, some b) (b, nx) (λ q. q)
      (λ q. absurd (omega (arith, q, l))) n,
  IsChain-split b c d a nx h,
)

IsChain-join :
    (b : ℕ) (c d : List Link) (a p : ℕ) (nx ny : Option ℕ)
    → IsChain b (c ++ ((a, nx) ∷ ((p, ny) ∷ d)))
    → IsChain b (c ++ ((a, ny) ∷ d))
unfolding IsChain
IsChain-join b [] d a p nx ny (e, l, (m, n), (e', l', n', h)) = (e', l, n, h)
IsChain-join b ((x, nw) ∷ c) d a p nx ny (e, l, n, h) = (
  e ∙ first-same c ((p, ny) ∷ d) d a nx ny,
  l,
  All-merge (λ (y : Link). ¬ (y.0 ≡ x)) c d (a, nx) (p, ny) (a, ny) (λ q. q) n,
  IsChain-join b c d a p nx ny h,
)

-- One part of a chain may stand for another. The addresses are below `b` before and `b'` after.
pub record Relinks (b b' : ℕ) (xs ys : List Link) : Type 0 where
  pub keeps : (c d : List Link) → IsChain b (c ++ (xs ++ d)) → IsChain b' (c ++ (ys ++ d))

pub Relinks-eq : {b : ℕ} {xs ys : List Link} → xs ≡ ys → Relinks b b xs ys
Relinks-eq {b} {xs} e = record { keeps = λ c d h. subst (λ ys. IsChain b (c ++ (ys ++ d))) e h }

pub Relinks-trans :
    {b b' b'' : ℕ} {xs ys zs : List Link}
    → Relinks b b' xs ys
    → Relinks b' b'' ys zs
    → Relinks b b'' xs zs
Relinks-trans f g = record { keeps = λ c d h. g.keeps c d (f.keeps c d h) }

pub Relinks-stay : {b : ℕ} {xs ys : List Link} → xs ≡ ys → Relinks b (b + 1) xs ys
Relinks-stay {b} {xs} {ys} e = record {
  keeps = λ c d h. IsChain-weaken b (c ++ (ys ++ d)) (subst (λ ys. IsChain b (c ++ (ys ++ d))) e h);
}

pub Relinks-within :
    (p s : List Link) {b b' : ℕ} {xs ys : List Link}
    → Relinks b b' xs ys
    → Relinks b b' (p ++ (xs ++ s)) (p ++ (ys ++ s))
Relinks-within p s {b} {b'} {xs} {ys} f = record {
  keeps = λ c d h.
      subst (IsChain b') (regroup c d ys)
        (f.keeps (c ++ p) (s ++ d) (subst (IsChain b) (sym (regroup c d xs)) h));
}
  where
    regroup : (c d zs : List Link) → (c ++ p) ++ (zs ++ (s ++ d)) ≡ c ++ ((p ++ (zs ++ s)) ++ d)
    regroup c d zs = simp append_assoc refl

pub Relinks-behind :
    (p : List Link) {b b' : ℕ} {xs ys : List Link}
    → Relinks b b' xs ys
    → Relinks b b' (p ++ xs) (p ++ ys)
Relinks-behind p {b} {b'} {xs} {ys} f =
    subst (λ l. Relinks b b' (p ++ l) (p ++ ys)) (append-nil xs)
      (subst (λ l. Relinks b b' (p ++ (xs ++ [])) (p ++ l)) (append-nil ys) (Relinks-within p [] f))

pub Relinks-split :
    (b a : ℕ) (nx : Option ℕ) → Relinks b (b + 1) ((a, nx) ∷ []) ((a, some b) ∷ ((b, nx) ∷ []))
Relinks-split b a nx = record { keeps = λ c d h. IsChain-split b c d a nx h }

pub Relinks-join :
    (b a p : ℕ) (nx ny : Option ℕ) → Relinks b b ((a, nx) ∷ ((p, ny) ∷ [])) ((a, ny) ∷ [])
Relinks-join b a p nx ny = record { keeps = λ c d h. IsChain-join b c d a p nx ny h }
