-- ===== src/Btree/Refinement.antt =====
-- Any sequence of Puts and Deletes on a new tree agrees with the same sequence on a sorted list.
use scutedb.Base.{
  ℕ, ◌-◌, ◌/◌, ◌≤◌, ◌≡◌, refl, sym, ap, ◌∙◌, subst, arith, List, [], ◌∷◌, none, some, if-cases, ltb,
  length, inr, ok, err,
}
use scutedb.Base.{Result}
use scutedb.Btree.{Error}
use scutedb.Nodepage.{RowId}
use scutedb.Btree.{Key, leaf, Tree, get, put, new, no_stats}
use scutedb.Btree.Items.{IsSorted, rows_of, zip_rows, items}
use scutedb.Btree.Entries.{Entries, find, upsert, erase}
use scutedb.Btree.Delete.{remove}
use scutedb.Btree.Balanced.{new-IsBalanced}
use scutedb.Btree.Map.{root_items, contents, IsTree, get-find, put-IsTree, contents-put}
use scutedb.Btree.Removal.{remove-IsRemoved}

pub data Command : Type 0 where
  to_put : Key → RowId → Command
  to_delete : Key → Command

abbrev pub step : Command → Tree → Tree
step (to_put key rid) t = put t key rid
step (to_delete key) t = (remove t key).1

unfoldable pub run : List Command → Tree → Tree
run [] t = t
run (c ∷ cs) t = run cs (step c t)

abbrev pub step_entries : Command → Entries → Entries
step_entries (to_put key rid) es = upsert key rid es
step_entries (to_delete key) es = erase key es

unfoldable pub run_entries : List Command → Entries → Entries
run_entries [] es = es
run_entries (c ∷ cs) es = run_entries cs (step_entries c es)

pub step-IsTree : (c : Command) (t : Tree) → IsTree t → IsTree (step c t)
step-IsTree (to_put key rid) t h = put-IsTree t key rid (inr h)
step-IsTree (to_delete key) t h = (remove-IsRemoved t key h).tree

step-contents :
    (c : Command) (t : Tree) → IsTree t → contents (step c t) ≡ step_entries c (contents t)
step-contents (to_put key rid) t h = contents-put t key rid (inr h)
step-contents (to_delete key) t h = (remove-IsRemoved t key h).without

pub run-IsTree : (cs : List Command) (t : Tree) → IsTree t → IsTree (run cs t)
unfolding run
run-IsTree [] t h = h
run-IsTree (c ∷ cs) t h = run-IsTree cs (step c t) (step-IsTree c t h)

pub run-contents :
    (cs : List Command) (t : Tree) → IsTree t → contents (run cs t) ≡ run_entries cs (contents t)
unfolding run run_entries
run-contents [] t h = refl
run-contents (c ∷ cs) t h =
    run-contents cs (step c t) (step-IsTree c t h) ∙ ap (run_entries cs) (step-contents c t h)

abbrev result_or : Tree → Result Error Tree → Tree
result_or t (ok u) = u
result_or t (err e) = t

new_bare :
    (order : ℕ) (t : Tree)
    → 3 ≤ order
    → new order ≡ ok t
    → (t.root ≡ some (leaf 0 [] [] none)) × (t.count ≡ 0)
unfolding new
new_bare order t h e =
    let made : Tree = record {
      root = some (leaf 0 [] [] none);
      order = order;
      max_keys = order - 1;
      min_keys = (order - 1) / 2;
      count = 0;
      fresh = 1;
      stats = no_stats;
    } in
    let made_ok : ok made ≡ new order =
      if-cases {A = Result Error Tree} (λ r. ok made ≡ r) (ltb order 3) _ _
        (λ q. absurd (ground (arith, q))) (λ q. refl) in
    let there : made ≡ t = ap (result_or made) (made_ok ∙ e) in
    subst (λ (u : Tree). (u.root ≡ some (leaf 0 [] [] none)) × (u.count ≡ 0)) there (refl, refl)

-- A new tree is empty.
new-IsTree :
    (order : ℕ) → 3 ≤ order → (t : Tree) × (new order ≡ ok t) × IsTree t × (contents t ≡ [])
unfolding new items zip_rows rows_of IsSorted
new-IsTree order h =
    let (t, e, b) = new-IsBalanced order h in
    let (bare, zeroed) = new_bare order t h e in
    (
      t,
      e,
      record {
        balanced = b;
        ordered = subst (λ r. IsSorted (root_items r)) (sym bare) tt;
        counted = zeroed ∙ ap (λ r. length (rows_of (root_items r))) (sym bare);
      },
      ap (λ r. rows_of (root_items r)) bare,
    )

-- What a tree of the order is after the commands, beside the sorted list after the same commands.
abbrev pub Refines : ℕ → List Command → Key → Type 0
Refines order cs key =
    (t : Tree) × (new order ≡ ok t)
    × (contents (run cs t) ≡ run_entries cs [])
    × (get (run cs t) key ≡ find key (run_entries cs []))
    × ((run cs t).count ≡ length (run_entries cs []))
    × IsTree (run cs t)

-- After any sequence of Puts and Deletes on a new tree of any order from 3 on, Get finds what a
-- sorted list finds after the same sequence, the tree holds the same keys and rows in the same
-- order and counts them, and it is balanced with its keys in order.
pub run-Refines : (order : ℕ) (cs : List Command) (key : Key) → 3 ≤ order → Refines order cs key
run-Refines order cs key h =
    let (t, e, tree, empty) = new-IsTree order h in
    let after = run-IsTree cs t tree in
    let same = run-contents cs t tree ∙ ap (run_entries cs) empty in
    (
      t,
      e,
      same,
      get-find (run cs t) key after ∙ ap (find key) same,
      after.counted ∙ ap length same,
      after,
    )
