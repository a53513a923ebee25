-- ===== src/Btree/Scanning.antt =====
-- What an iterator reads from a place in the chain of leaves.
use scutedb.Base.{
  ℕ, zero, suc, ◌+◌, ◌≤◌, ◌<◌, ◌≡◌, refl, sym, ap, ◌∙◌, arith, List, [], ◌∷◌, ◌++◌, append_assoc,
  Option, none, some, Bool, true, false, if◌then◌else◌, if-cases, Bool-cases, leb, length, drop,
  get_or, inl, inr,
}
use scutedb.Nodepage.{RowId}
use scutedb.Btree.{Key, no_row}
use scutedb.Btree.Items.{rows_of, zip_rows}
use scutedb.Btree.Entries.{Entries}
use scutedb.Btree.Scan.{Leaf, follow, Iterator, skip, is_end, next_at, next, drain}

abbrev pub pairs : List Key → List RowId → Entries
pairs ks rs = rows_of (zip_rows ks rs)

unfoldable pub all_pairs : List Leaf → Entries
all_pairs [] = []
all_pairs (l ∷ ls) = pairs l.keys l.rows ++ all_pairs ls

-- What is left from the entry `i` of the first leaf on.
unfoldable pub left : List Leaf → ℕ → Entries
unfolding all_pairs
left [] i = []
left (l ∷ ls) i = drop i (pairs l.keys l.rows) ++ all_pairs ls

abbrev pub head : List Leaf → Option Leaf
head [] = none
head (l ∷ ls) = some l

-- Each leaf leads to the next one.
abbrev pub Chained : List Leaf → List Leaf → Type 0
Chained heap [] = Unit {0}
Chained heap (l ∷ ls) =
    (follow heap l.next ≡ head ls) × (length l.rows ≡ length l.keys) × Chained heap ls

-- The entries before the end.
unfoldable pub until : Option Key → Entries → Entries
until to [] = []
until to ((k, r) ∷ es) = let rest = until to es in if is_end to k then [] else (k, r) ∷ rest

abbrev IsReady : List Leaf → ℕ → Type 0
IsReady [] i = Unit {0}
IsReady (l ∷ ls) i = i < length l.keys

drop-pairs :
    (i : ℕ) (ks : List Key) (rs : List RowId)
    → length rs ≡ length ks
    → length ks ≤ i
    → drop i (pairs ks rs) ≡ []
unfolding zip_rows rows_of
drop-pairs zero [] rs e h = refl
drop-pairs zero (k ∷ ks) rs e h = absurd (omega (arith, h))
drop-pairs (suc i) [] rs e h = refl
drop-pairs (suc i) (k ∷ ks) [] e h = refl
drop-pairs (suc i) (k ∷ ks) (r ∷ rs) e h = drop-pairs i ks rs (omega (arith, e)) (omega (arith, h))

pairs_at :
    (i : ℕ) (ks : List Key) (rs : List RowId)
    → length rs ≡ length ks
    → i < length ks
    → drop i (pairs ks rs) ≡ (get_or ks i [], get_or rs i no_row) ∷ drop (suc i) (pairs ks rs)
unfolding zip_rows rows_of
pairs_at i [] rs e h = absurd (omega (arith, h))
pairs_at i (k ∷ ks) [] e h = absurd (omega (arith, e))
pairs_at zero (k ∷ ks) (r ∷ rs) e h = refl
pairs_at (suc i) (k ∷ ks) (r ∷ rs) e h = pairs_at i ks rs (omega (arith, e)) (omega (arith, h))

pub left-zero : (ls : List Leaf) → left ls 0 ≡ all_pairs ls
unfolding left
left-zero [] = refl
left-zero (l ∷ ls) = refl

left_none : (j : ℕ) → [] ≡ left [] j
unfolding left
left_none j = refl

module _ (heap : List Leaf) where
  -- Where the loop over empty leaves comes to.
  record IsSkipped (ls : List Leaf) (i : ℕ) (x : Option Leaf × ℕ) : Type 0 where
    rest : List Leaf
    at : ℕ
    there : x ≡ (head rest, at)
    chained : Chained heap rest
    shorter : length rest ≤ length ls
    same_left : left rest at ≡ left ls i
    ready : IsReady rest at

  skip-IsSkipped :
      (rounds : ℕ) (ls : List Leaf) (i : ℕ)
      → Chained heap ls
      → length ls ≤ rounds
      → IsSkipped ls i (skip heap rounds (head ls) i)
  unfolding skip left
  skip-IsSkipped zero [] i c h = record {
    rest = [];
    at = i;
    there = refl;
    chained = tt;
    shorter = omega arith;
    same_left = refl;
    ready = tt;
  }
  skip-IsSkipped zero (l ∷ ls) i c h = absurd (omega (arith, h))
  skip-IsSkipped (suc rounds) [] i c h = record {
    rest = [];
    at = i;
    there = refl;
    chained = tt;
    shorter = omega arith;
    same_left = refl;
    ready = tt;
  }
  skip-IsSkipped (suc rounds) (l ∷ ls) i (f, e, c) h =
      if-cases (IsSkipped (l ∷ ls) i) (leb (length l.keys) i) _ _
        (λ q.
          let s = skip-IsSkipped rounds ls 0 c (omega (arith, h)) in
          record {
            rest = s.rest;
            at = s.at;
            there = ap (λ n. skip heap rounds n 0) f ∙ s.there;
            chained = s.chained;
            shorter = omega (arith, s.shorter);
            same_left =
                s.same_left
                ∙ left-zero ls
                ∙ ap (λ l. l ++ all_pairs ls)
                    (sym (drop-pairs i l.keys l.rows e (ground (arith, q))));
            ready = s.ready;
          })
        (λ q. record {
          rest = l ∷ ls;
          at = i;
          there = refl;
          chained = (f, e, c);
          shorter = omega arith;
          same_left = refl;
          ready = ground (arith, q);
        })

  abbrev pub from_place : Option Leaf → ℕ → Option Key → Key → RowId → Iterator
  from_place n i to key rid = record { n = n; i = i; to = to; key = key; rid = rid; done = false }

  left-at :
      (l : Leaf) (ls : List Leaf) (i : ℕ)
      → length l.rows ≡ length l.keys
      → i < length l.keys
      → left (l ∷ ls) i ≡ (get_or l.keys i [], get_or l.rows i no_row) ∷ left (l ∷ ls) (i + 1)
  unfolding left
  left-at l ls i e less =
      ap (λ es. es ++ all_pairs ls) (pairs_at i l.keys l.rows e less)
      ∙ ap
          (λ n.
            (get_or l.keys i [], get_or l.rows i no_row)
            ∷ (drop n (pairs l.keys l.rows) ++ all_pairs ls))
          {x = suc i} {y = i + 1} (omega arith)

  abbrev read : ℕ → Bool × Iterator → Entries
  read rounds r = if r.0 then (r.1.key, r.1.rid) ∷ drain heap rounds r.1 else []

  -- One round, if the later ones read what is left then.
  read-left :
      (rounds : ℕ) (to : Option Key) (it : Iterator)
      → ((ls : List Leaf) (i : ℕ) (key : Key) (rid : RowId)
          → Chained heap ls
          → length ls ≤ length heap
          → length (left ls i) < rounds
          → drain heap rounds (from_place (head ls) i to key rid) ≡ until to (left ls i))
      → (ms : List Leaf) (j : ℕ) → Chained heap ms
      → IsReady ms j
      → length ms ≤ length heap
      → length (left ms j) < suc rounds
      → read rounds (next_at (from_place it.n it.i to it.key it.rid) (head ms, j))
        ≡ until to (left ms j)
  unfolding until
  read-left rounds to it later [] j c ready short less =
      ap (until to) {x = []} {y = left [] j} (left_none j)
  read-left rounds to it later (l ∷ ms) j (f, e, c) ready short less =
      let k = get_or l.keys j [] in
      let r = get_or l.rows j no_row in
      let at = left-at l ms j e ready in
      elim (Bool-cases (is_end to k)) [
        | inl q ↦ rw q (sym (ap (until to) at ∙ ends k r (left (l ∷ ms) (j + 1)) q))
        | inr q ↦ rw q (
            ap (λ es. (k, r) ∷ es)
              (later (l ∷ ms) (j + 1) k r (f, e, c) short (omega (arith, less, ap length at)))
            ∙ sym (ap (until to) at ∙ goes k r (left (l ∷ ms) (j + 1)) q))
      ]
    where
      ends : (k : Key) (r : RowId) (es : Entries) → is_end to k ≡ true → until to ((k, r) ∷ es) ≡ []
      ends k r es q = rw q refl

      goes :
          (k : Key) (r : RowId) (es : Entries)
          → is_end to k ≡ false
          → until to ((k, r) ∷ es) ≡ (k, r) ∷ until to es
      goes k r es q = rw q refl

  -- A client reads all that is left before the end.
  pub drain-left :
      (rounds : ℕ) (to : Option Key) (ls : List Leaf) (i : ℕ) (key : Key) (rid : RowId)
      → Chained heap ls
      → length ls ≤ length heap
      → length (left ls i) < rounds
      → drain heap rounds (from_place (head ls) i to key rid) ≡ until to (left ls i)
  unfolding drain next
  drain-left zero to ls i key rid c short h = absurd (omega (arith, h))
  drain-left (suc rounds) to ls i key rid c short h =
      let s = skip-IsSkipped (length heap) ls i c short in
      ap (λ x. read rounds (next_at (from_place (head ls) i to key rid) x)) s.there
      ∙ read-left rounds to (from_place (head ls) i to key rid) (drain-left rounds to) s.rest s.at
          s.chained s.ready (omega (arith, s.shorter, short))
          (omega (arith, ap length s.same_left, h))
      ∙ ap (until to) s.same_left

pub all_pairs-append : (xs ys : List Leaf) → all_pairs (xs ++ ys) ≡ all_pairs xs ++ all_pairs ys
unfolding all_pairs
all_pairs-append [] ys = refl
all_pairs-append (x ∷ xs) ys =
    ap (λ l. pairs x.keys x.rows ++ l) (all_pairs-append xs ys)
    ∙ sym (append_assoc (pairs x.keys x.rows) (all_pairs xs) (all_pairs ys))
