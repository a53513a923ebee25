-- ===== src/Btree/Inverting.antt =====
-- What a check that passes has found.
use scutedb.Base.{
  ℕ, ◌+◌, ◌≤◌, ◌≡◌, refl, sym, ap, ◌∙◌, arith, List, [], ◌∷◌, ◌++◌, Option, none, some, Bool, true,
  false, not, ◌&&◌, if-cases, ltb, length, ◌==◌, inl, inr, ok, err,
}
use scutedb.Base.{Result}
use scutedb.Btree.{Error}
use scutedb.Nodepage.{RowId}
use scutedb.Btree.{Key, Node, Nodes}
use scutedb.Btree.Items.{Item, IsSorted, zip_rows, items, items_among}
use scutedb.Btree.Delete.{key_count, node_count}
use scutedb.Btree.Shape.{IsShaped, AllShaped}
use scutedb.Btree.Balanced.{HasKeys}
use scutedb.Btree.Validate.{
  in_order, within, keys_fit, same_depth, check_leaf, check_inner, then_check,
}
use scutedb.Btree.Checked.{After, Before, Depth}
use scutedb.Btree.Trusted.{ok_inv, HasItem}

abbrev Checked : Type 0
Checked = Result Error (Option ℕ)

pub same_depth-inv :
    (depth : Option ℕ) (level : ℕ) (d : Option ℕ)
    → same_depth depth level ≡ ok d
    → (d ≡ some level) × Depth depth level
same_depth-inv none level d h = (sym (ok_inv (some level) d h), inl refl)
same_depth-inv (some x) level d h =
    if-cases {A = Checked} (λ r. r ≡ ok d → (d ≡ some level) × Depth (some x) level) (x == level) _
      _
      (λ e g.
        let at : x ≡ level = ground (arith, e) in
        (sym (ok_inv (some x) d g) ∙ ap (λ (n : ℕ). some n) at, inr (ap (λ (n : ℕ). some n) at)))
      (λ e g. absurd (ground (arith, g))) h

pub check_leaf-inv :
    (b : Bool) (ks : List Key) (rs : List RowId) (depth : Option ℕ) (level : ℕ) (d : Option ℕ)
    → check_leaf b ks rs depth level ≡ ok d
    → (b ≡ true) × (length rs ≡ length ks) × (same_depth depth level ≡ ok d)
check_leaf-inv false ks rs depth level d h = absurd (ground (arith, h))
check_leaf-inv true ks rs depth level d h =
    if-cases {A = Checked}
      (λ r. r ≡ ok d → (true ≡ true) × (length rs ≡ length ks) × (same_depth depth level ≡ ok d))
      (length rs == length ks) _ _ (λ e g. (refl, ground (arith, e), g))
      (λ e g. absurd (ground (arith, g))) h

abbrev InnerPassed : Bool → Bool → List Key → Nodes → Checked → Option ℕ → Type 0
InnerPassed b is_root ks cs below d =
    (b ≡ true) × (node_count cs ≡ length ks + 1) × (is_root ≡ true → 1 ≤ length ks) × (below ≡ ok d)

pub check_inner-inv :
    (b is_root : Bool) (ks : List Key) (cs : Nodes) (below : Checked) (d : Option ℕ)
    → check_inner b is_root ks cs below ≡ ok d
    → InnerPassed b is_root ks cs below d
check_inner-inv false is_root ks cs below d h = absurd (ground (arith, h))
check_inner-inv true is_root ks cs below d h =
    if-cases {A = Checked} Fine (not (node_count cs == length ks + 1)) _ _
      (λ e g. absurd (ground (arith, g)))
      (λ e.
        if-cases {A = Checked} Fine (is_root && ltb (node_count cs) 2) _ _
          (λ z g. absurd (ground (arith, g)))
          (λ z g. (refl, ground (arith, e), (λ q. ground (arith, z, e, q)), g)))
      h
  where
    Fine : Checked → Type 0
    Fine r = r ≡ ok d → InnerPassed true is_root ks cs below d

pub then_check-inv :
    (f : Option ℕ → Checked) (r : Checked) (d : Option ℕ)
    → then_check f r ≡ ok d
    → (e : Option ℕ) × (r ≡ ok e) × (f e ≡ ok d)
then_check-inv f (ok e) d h = (e, refl, h)
then_check-inv f (err e) d h = absurd (ground (arith, h))

module _ (least most : ℕ) (some_keys : 1 ≤ least) where
  -- A node that passed, at a level, between two keys.
  pub record IsTrusted (n : Node) (level : ℕ) (depth : Option ℕ) (low high : Option Key)
      (is_root : Bool) (d : Option ℕ) : Type 0 where
    pub height : ℕ
    pub shaped : IsShaped least most n height
    pub sorted : IsSorted (items n)
    pub after_low : After low (items n)
    pub before_high : Before high (items n)
    pub deep : d ≡ some (level + height)
    pub same_leaves : Depth depth (level + height)
    pub bounded : key_count n ≤ most
    pub enough : is_root ≡ false → least ≤ key_count n
    pub branches : is_root ≡ true → HasKeys n
    pub full : 1 ≤ key_count n → HasItem (items n)

  pub record AreTrusted (cs : Nodes) (ks : List Key) (level : ℕ) (depth : Option ℕ)
      (low high : Option Key) (d : Option ℕ) : Type 0 where
    pub height : ℕ
    pub shaped : AllShaped least most cs height
    pub sorted : IsSorted (items_among cs ks)
    pub after_low : After low (items_among cs ks)
    pub before_high : Before high (items_among cs ks)
    pub deep : d ≡ some (level + height)
    pub same_leaves : Depth depth (level + height)
    pub full : HasItem (items_among cs ks)

  some_inv : (a b : ℕ) → some a ≡ some b → a ≡ b
  some_inv a b h = ap (number_or a) h
    where
      number_or : ℕ → Option ℕ → ℕ
      number_or z none = z
      number_or z (some n) = n

  pub same_height :
      (level h g : ℕ) (d : Option ℕ) → d ≡ some (level + h) → Depth d (level + g) → h ≡ g
  same_height level h g d e (inl q) = absurd (ground (arith, sym q ∙ e))
  same_height level h g d e (inr q) = omega (arith, some_inv (level + h) (level + g) (sym e ∙ q))

  pub fit-inv :
      (is_root : Bool) (low high : Option Key) (ks : List Key)
      → keys_fit least most is_root low high ks ≡ true
      → (in_order ks ≡ true)
        × (within low high ks ≡ true)
        × (length ks ≤ most)
        × (is_root ≡ false → least ≤ length ks)
  fit-inv is_root low high ks h =
      (ground (arith, h), ground (arith, h), ground (arith, h), λ q. ground (arith, h, q))

  pub HasItem-front : (xs ys : List Item) → HasItem xs → HasItem (xs ++ ys)
  HasItem-front [] ys h = absurd h
  HasItem-front (x ∷ xs) ys h = tt

  pub HasItem-rows :
      (ks : List Key) (rs : List RowId)
      → length rs ≡ length ks
      → 1 ≤ length ks
      → HasItem (zip_rows ks rs)
  unfolding zip_rows
  HasItem-rows [] rs e h = absurd (omega arith)
  HasItem-rows (k ∷ ks) [] e h = absurd (omega (arith, e))
  HasItem-rows (k ∷ ks) (r ∷ rs) e h = tt
