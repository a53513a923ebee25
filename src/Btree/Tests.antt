-- ===== src/Btree/Tests.antt =====
-- The theorems on trees at concrete trees.
use scutedb.Btree.{leaf}
use scutedb.Base.{◌≤◌, compare_bytes}
use Prim.Native.Nat.{◌*◌}
use scutedb.Btree.Balanced.{RootShaped}
use scutedb.Btree.Items.{IsSorted, items, rows_of}
use scutedb.Btree.Map.{root_items}
use scutedb.Btree.Trusting.{validate-IsSorted}
use scutedb.Btree.Height.{held, height-le-len}
use scutedb.Btree.Measure.{height, len}
use scutedb.Btree.Refinement.{run-IsTree}
use scutedb.Base.{true, ok, [], ◌∷◌, none, some, List, inl, inr, refl, ◌≡◌, arith, if◌then◌else◌}
use scutedb.Nodepage.{RowId}
use scutedb.Btree.{Key, Tree, get, put, no_stats}
use scutedb.Btree.Delete.{remove}
use scutedb.Btree.Map.{contents, IsTree, get-find, put-IsTree, contents-put}
use scutedb.Btree.Entries.{find, upsert, same}
use scutedb.Btree.Removal.{IsRemoved, remove-IsRemoved}
use scutedb.Btree.Refinement.{Command, to_put, to_delete, run, Refines, run-Refines}
use scutedb.Btree.Lookup.{get-put, get-remove}
use scutedb.Btree.Links.{IsChain}
use scutedb.Btree.Linking.{IsLinked, put-IsLinked}
use scutedb.Btree.Chain.{run-IsLinked}
use scutedb.Btree.Scan.{drain, scan, root_leaves}
use scutedb.Btree.Ranges.{range}
use scutedb.Btree.Scans.{drain-scan}
use scutedb.Btree.Validate.{validate}
use scutedb.Btree.Passing.{validate-passes}
use scutedb.Btree.Adapter.{Index, Gets, index_get, index_put, index_delete, Deletes, index_missing}

-- Go's zero value.
abbrev unset : Tree
unset = record {
  root = none;
  order = 0;
  max_keys = 0;
  min_keys = 0;
  count = 0;
  fresh = 0;
  stats = no_stats;
}

abbrev seven : Key
seven = 7 ∷ []

abbrev eight : Key
eight = 8 ∷ 0 ∷ []

abbrev here : RowId
here = record { page = 3; slot = 4 }

abbrev there : RowId
there = record { page = 5; slot = 1 }

abbrev one_key : Tree
one_key = put unset seven here

put-IsTree_example : IsTree one_key
put-IsTree_example = put-IsTree unset seven here (inl ((refl, refl), refl))

contents-put_example : contents (put one_key eight there) ≡ upsert eight there (contents one_key)
contents-put_example =
    contents-put one_key eight there (inr (put-IsTree unset seven here (inl ((refl, refl), refl))))

get-find_example : get one_key eight ≡ find eight (contents one_key)
get-find_example = get-find one_key eight (put-IsTree unset seven here (inl ((refl, refl), refl)))

remove-IsRemoved_example : IsRemoved one_key seven (remove one_key seven)
remove-IsRemoved_example =
    remove-IsRemoved one_key seven (put-IsTree unset seven here (inl ((refl, refl), refl)))

get-put_example :
    get (put one_key eight there) seven
    ≡ (if same eight seven then some there else get one_key seven)
get-put_example =
    get-put one_key eight seven there (put-IsTree unset seven here (inl ((refl, refl), refl)))

get-remove_example :
    get (remove one_key seven).1 seven ≡ (if same seven seven then none else get one_key seven)
get-remove_example =
    get-remove one_key seven seven (put-IsTree unset seven here (inl ((refl, refl), refl)))

-- Enough to split a leaf of a tree of order 3, to borrow and to merge.
abbrev commands : List Command
commands =
    to_put seven here
    ∷ to_put eight there
    ∷ to_put (9 ∷ []) here
    ∷ to_put (5 ∷ []) there
    ∷ to_delete eight
    ∷ to_put seven there
    ∷ to_delete (9 ∷ [])
    ∷ to_delete seven
    ∷ []

run-Refines_example : Refines 3 commands seven
run-Refines_example = run-Refines 3 commands seven (omega arith)

one_key-IsLinked : IsLinked one_key
unfolding IsChain
one_key-IsLinked = put-IsLinked unset seven here tt

one_key-IsTree : IsTree one_key
one_key-IsTree = put-IsTree unset seven here (inl ((refl, refl), refl))

run-IsLinked_example : IsLinked (run commands one_key)
run-IsLinked_example = run-IsLinked commands one_key one_key-IsTree one_key-IsLinked

drain-scan_example :
    drain (root_leaves one_key.root) 3 (scan one_key seven (some eight))
    ≡ range seven (some eight) (contents one_key)
unfolding put
drain-scan_example =
    drain-scan one_key seven (some eight) 3 one_key-IsTree one_key-IsLinked (omega arith)

validate-passes_example : validate one_key ≡ ok true
validate-passes_example = validate-passes one_key one_key-IsTree one_key-IsLinked

abbrev one_index : Index
one_index = record { t = one_key }

index_missing_example :
    Gets one_index eight (index_get one_index eight)
    × Deletes one_index eight (index_delete one_index eight)
    × (index_get (index_put one_index eight there).1 eight ≡ ok there)
index_missing_example = index_missing one_index eight there one_key-IsTree

validate-IsSorted_example :
    RootShaped one_key.min_keys one_key.max_keys one_key.root × IsSorted (root_items one_key.root)
unfolding put
validate-IsSorted_example =
    validate-IsSorted one_key (omega arith)
      (validate-passes one_key one_key-IsTree one_key-IsLinked)

-- A new tree of order 3.
abbrev bare : Tree
bare = record {
  root = some (leaf 0 [] [] none);
  order = 3;
  max_keys = 2;
  min_keys = 1;
  count = 0;
  fresh = 1;
  stats = no_stats;
}

bare-IsTree : IsTree bare
unfolding IsSorted items rows_of
bare-IsTree = record {
  balanced = record {
    known_order = omega arith;
    most_keys = refl;
    least_keys = refl;
    root_shaped = record { height = 0; shaped = refl; bounded = omega arith; branches = tt };
  };
  ordered = tt;
  counted = refl;
}

abbrev three_puts : List Command
three_puts = to_put seven here ∷ to_put eight there ∷ to_put (9 ∷ []) here ∷ []

height-three_puts : height (run three_puts bare) ≡ 2
unfolding height run put compare_bytes
height-three_puts = refl

height-le-len_example : 2 * held (run three_puts bare).min_keys 0 ≤ len (run three_puts bare)
height-le-len_example =
    height-le-len (run three_puts bare) 0 (run-IsTree three_puts bare bare-IsTree) height-three_puts
