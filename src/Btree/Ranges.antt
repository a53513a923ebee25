-- ===== src/Btree/Ranges.antt =====
-- What a scan reads: the keys from `from` on, before `to`.
use scutedb.Base.{Bool}
use scutedb.Base.{
  ◌≡◌, refl, sym, ap, arith, List, [], ◌∷◌, ◌++◌, Option, none, some, true, false, not, ◌&&◌,
  if◌then◌else◌, if-cases, Bool-cases, length, drop, inl, inr,
}
use scutedb.Nodepage.{RowId}
use scutedb.Btree.{Key}
use scutedb.Btree.Keys.{lt, le_trans, lt_asym}
use scutedb.Btree.Items.{Item, row, sep, Below, IsSorted, rows_of, zip_rows}
use scutedb.Btree.Entries.{Entries, Under}
use scutedb.Btree.Index.{linear_leaf}
use scutedb.Btree.Scan.{is_end}
use scutedb.Btree.Scanning.{pairs, until}

-- A key before the end of a range, which may have none.
abbrev pub is_before : Option Key → Key → Bool
is_before none k = true
is_before (some to) k = lt k to

-- The entries whose keys are in a range: not less than `from`, and less than `to`.
unfoldable pub range : Key → Option Key → Entries → Entries
range from to [] = []
range from to ((k, r) ∷ es) =
    let rest = range from to es in if not (lt k from) && is_before to k then (k, r) ∷ rest else rest

-- The entries from a key on.
unfoldable pub since : Key → Entries → Entries
since from [] = []
since from ((k, r) ∷ es) = let rest = since from es in if lt k from then rest else (k, r) ∷ rest

pub since-append :
    (from : Key) (xs ys : Entries) → since from (xs ++ ys) ≡ since from xs ++ since from ys
unfolding since
since-append from [] ys = refl
since-append from ((k, r) ∷ xs) ys = elim (Bool-cases (lt k from)) [
  | inl e ↦ rw e (since-append from xs ys)
  | inr e ↦ rw e (ap (λ es. (k, r) ∷ es) (since-append from xs ys))
]

pub since_none :
    (from : Key) (rid : RowId) (xs : List Item) → Under from rid xs → since from (rows_of xs) ≡ []
unfolding since rows_of
since_none from rid [] h = refl
since_none from rid (sep k ∷ xs) (a, h) = since_none from rid xs h
since_none from rid (row k r ∷ xs) (a, h) = rw a (since_none from rid xs h)

pub since_all :
    (from : Key) (rid : RowId) (xs : List Item)
    → Below (row from rid) xs
    → since from (rows_of xs) ≡ rows_of xs
unfolding since rows_of
since_all from rid [] h = refl
since_all from rid (sep k ∷ xs) (a, h) = since_all from rid xs h
since_all from rid (row k r ∷ xs) (a, h) =
    rw (lt_asym from k a) (ap (λ es. (k, r) ∷ es) (since_all from rid xs h))

-- The end of a scan and that of a range.
is_end-is_before : (to : Option Key) (k : Key) → is_end to k ≡ not (is_before to k)
is_end-is_before none k = refl
is_end-is_before (some to) k = refl

-- A key behind the end has only such keys behind it.
range_ended :
    (from k : Key) (r : RowId) (to : Option Key) (xs : List Item)
    → is_before to k ≡ false
    → Below (row k r) xs
    → range from to (rows_of xs) ≡ []
unfolding range rows_of
range_ended from k r to [] e h = refl
range_ended from k r to (sep j ∷ xs) e (a, h) = range_ended from k r to xs e h
range_ended from k r none (row j q ∷ xs) e (a, h) = absurd (ground (arith, e))
range_ended from k r (some z) (row j q ∷ xs) e (a, h) =
    let past : lt j z ≡ false = le_trans z k j (ground (arith, e)) (lt_asym k j a) in
    rw past (
      if-cases (λ es. es ≡ []) (not (lt j from) && false) _ _ (λ b. absurd (ground (arith, b)))
        (λ b. range_ended from k r (some z) xs e h))

-- Skipping what is before `from` and stopping at `to` leaves the range.
pub until-since :
    (from : Key) (to : Option Key) (xs : List Item)
    → IsSorted xs
    → until to (since from (rows_of xs)) ≡ range from to (rows_of xs)
unfolding until since range rows_of IsSorted
until-since from to [] h = refl
until-since from to (sep k ∷ xs) (b, h) = until-since from to xs h
until-since from to (row k r ∷ xs) (b, h) = elim (Bool-cases (lt k from)) [
  | inl e ↦ rw e (until-since from to xs h)
  | inr e ↦ elim (Bool-cases (is_before to k)) [
    | inl z ↦
        rw e (rw (is_end-is_before to k) (rw z (ap (λ es. (k, r) ∷ es) (until-since from to xs h))))
    | inr z ↦ rw e (rw (is_end-is_before to k) (rw z (sym (range_ended from k r to xs z b))))
  ]
]

-- The place in its leaf from which a scan starts.
pub linear_since :
    (from : Key) (ks : List Key) (rs : List RowId)
    → length rs ≡ length ks
    → IsSorted (zip_rows ks rs)
    → drop (linear_leaf ks from) (pairs ks rs) ≡ since from (pairs ks rs)
unfolding since rows_of zip_rows IsSorted
linear_since from [] rs e h = refl
linear_since from (k ∷ ks) [] e h = absurd (omega (arith, e))
linear_since from (k ∷ ks) (r ∷ rs) e (b, h) = elim (Bool-cases (lt k from)) [
  | inl q ↦ rw q (linear_since from ks rs (omega (arith, e)) h)
  | inr q ↦ rw q (ap (λ es. (k, r) ∷ es) (sym (since_behind ks rs q b)))
]
  where
    since_behind :
        (js : List Key) (qs : List RowId)
        → lt k from ≡ false
        → Below (row k r) (zip_rows js qs)
        → since from (pairs js qs) ≡ pairs js qs
    since_behind [] qs q h = refl
    since_behind (j ∷ js) [] q h = refl
    since_behind (j ∷ js) (s ∷ qs) q (a, h) =
        rw (le_trans from k j q (lt_asym k j a)) (ap (λ es. (j, s) ∷ es) (since_behind js qs q h))
