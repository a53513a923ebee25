-- ===== src/Btree/Measure.antt =====
-- internal/btree/btree.go: Order, Len and Height.
use scutedb.Base.{ℕ, zero, suc, ◌+◌, ◌≡◌, refl, arith, Option, none, some, if◌then◌else◌, ◌==◌}
use scutedb.Btree.{Node, Nodes, leaf, internal, nil, cons, Tree, default_order, Stats, no_stats}
use scutedb.Btree.Shape.{IsShaped}

abbrev pub order_of : Tree → ℕ
order_of t = if t.order == 0 then default_order else t.order

abbrev pub len : Tree → ℕ
len t = t.count

-- The levels of a tree, down its first children.
unfoldable mutual
  pub levels : Node → ℕ
  levels (leaf addr keys rows next) = 1
  levels (internal keys children) = levels_below children + 1

  pub levels_below : Nodes → ℕ
  levels_below nil = 0
  levels_below (cons c cs) = levels c

abbrev pub root_levels : Option Node → ℕ
root_levels none = 0
root_levels (some n) = levels n

unfoldable pub height : Tree → ℕ
unfolding levels
height t = root_levels t.root

-- All leaves of a node lie as deep as the first.
pub levels-IsShaped :
    (least most : ℕ) (n : Node) (h : ℕ) → IsShaped least most n h → levels n ≡ h + 1
unfolding levels
levels-IsShaped least most (leaf addr ks rs nx) zero s = refl
levels-IsShaped least most (leaf addr ks rs nx) (suc h) s = absurd s
levels-IsShaped least most (internal ks cs) zero s = absurd s
levels-IsShaped least most (internal ks nil) (suc h) (e, all) = absurd (omega (arith, e))
levels-IsShaped least most (internal ks (cons c cs)) (suc h) (e, (s, few, many, all)) =
    omega (arith, levels-IsShaped least most c h s)

-- delete.go: the counters of the repairs.
abbrev pub stats_of : Tree → Stats
stats_of t = t.stats

abbrev pub reset_stats : Tree → Tree
reset_stats t = record t { stats = no_stats }
