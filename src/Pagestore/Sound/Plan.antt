-- ===== src/Pagestore/Sound/Plan.antt =====
-- The loop of checkpoint that finds pages for the new free list: it ends, it takes pages that the
-- last checkpoint does not reach, and they are as many as the entries need.
use scutedb.Page.Io.{bind-Touch_ok}
use scutedb.Base.State.{wrap-IfErr}
use scutedb.Base.{ltb, leb, if◌then◌else◌, ltb→lt, ltb→ge}
use scutedb.Base.{if-cases, length}
use scutedb.Base.{length-append}
use scutedb.Base.{count, count-append}
use scutedb.Base.{unsnoc, unsnoc-append, ℕ, zero}
use scutedb.Base.{suc, ◌+◌, ◌*◌, ◌≤◌, ◌<◌}
use scutedb.Base.{◌≡◌, refl, ap}
use scutedb.Base.{◌≢◌}
use scutedb.Base.{◌&&◌, Option, none, some}
use scutedb.Base.{List, [], ◌∷◌, ◌++◌, arith}
use scutedb.Base.State.{M, IfOk, bind-IfOk, any-IfOk, IfErr, bind-IfErr, lift}
use scutedb.Fileio.{File}
use scutedb.Fileio.Touch.{Touch}
use scutedb.Page.{Page, get_id}
use scutedb.Page
use scutedb.Page.Io.{Keeps, >>=-Keeps}
use scutedb.Pagestore.Types.{Store, Error, max_pages, page, free_list_capacity, stuck}
use scutedb.Pagestore.Format.{pages_for, grow_to}
use scutedb.Pagestore.Ops.{Fresh, fresh_page}
use scutedb.Pagestore.Checkpoint.{
  Plan, start, entry_count, add_fresh, plan_from, plan_round, plan_loop,
}
use scutedb.Pagestore.Sound.{IsSound}
use scutedb.Pagestore.Sound.Allocate.{IsNext, fresh_page-IsNext, fresh_page-Keeps}

-- 1 for a page that was taken from the end of the file, else 0.
abbrev pub is_fresh : Store → Plan → ℕ → ℕ
is_fresh s p id = if leb s.next_page id && ltb id p.next_page then 1 else 0

-- What holds of the plan in every round.
pub record IsPlan (s : Store) (p : Plan) : Type 0 where
  pub taken : (id : ℕ) → count id p.free + count id p.lists ≡ count id s.free + is_fresh s p id
  pub next_grows : s.next_page ≤ p.next_page
  pub file_grows : s.file_pages ≤ p.file_pages
  pub file_holds : p.next_page ≤ p.file_pages
  pub ids_left : p.file_pages ≤ max_pages
  -- The last list page has room for nothing that the others could hold.
  pub no_spare : length p.lists * free_list_capacity ≤ entry_count s p + free_list_capacity

-- A plan with which the loop stops: the list pages hold all entries.
abbrev pub IsDone : Store → Plan → Type 0
IsDone s p = IsPlan s p × (entry_count s p ≤ length p.lists * free_list_capacity)

pub start-IsPlan : (base : List ℕ) (s : Store) → IsSound base s → IsPlan s (start s)
unfolding start
start-IsPlan base s h = record {
  taken = λ id. ground arith;
  next_grows = omega arith;
  file_grows = omega arith;
  file_holds = h.file_holds;
  ids_left = h.ids_left;
  no_spare = omega arith;
}

module _ (s : Store) (p : Plan) (h : IsPlan s p)
    (more : length p.lists < pages_for (entry_count s p)) where
  room_needed : length p.lists * free_list_capacity < entry_count s p
  unfolding pages_for
  room_needed = omega (arith, more)

  take_free-IsPlan :
      (rest : List ℕ) (id : ℕ)
      → p.free ≡ rest ++ (id ∷ [])
      → IsPlan s (record p { free = rest; lists = p.lists ++ (id ∷ []) })
  take_free-IsPlan rest id e = record {
    taken = λ j. ground (
      arith,
      h.taken j,
      ap (count j) e,
      count-append j rest (id ∷ []),
      count-append j p.lists (id ∷ []),
    );
    next_grows = h.next_grows;
    file_grows = h.file_grows;
    file_holds = h.file_holds;
    ids_left = h.ids_left;
    no_spare = omega (
      arith,
      room_needed,
      ap length e,
      length-append rest (id ∷ []),
      length-append p.lists (id ∷ []),
    );
  }

  add_fresh-IsPlan : (n : Fresh) → IsNext p.next_page p.file_pages n → IsPlan s (add_fresh p n)
  add_fresh-IsPlan n g = record {
    taken = λ j. ground (arith, h.taken j, h.next_grows, count-append j p.lists (n.id ∷ []));
    next_grows = ground (arith, h.next_grows);
    file_grows = ground (arith, h.file_grows);
    file_holds = ground arith;
    ids_left = g.3;
    no_spare = omega (arith, room_needed, length-append p.lists (n.id ∷ []));
  }

pages_for_mono : (a b : ℕ) → a ≤ b → pages_for a ≤ pages_for b
unfolding pages_for
pages_for_mono a b h = omega arith

module _ {F : Type 0} (f : File F) (s : Store) where
  plan_from-IsPlan :
      (p : Plan) (o : Option (List ℕ × ℕ)) (w : F)
      → IsPlan s p
      → length p.lists < pages_for (entry_count s p)
      → unsnoc p.free ≡ o
      → IfOk (IsPlan s) (plan_from f p o w)
  plan_from-IsPlan p (some (rest, id)) w h more e =
      take_free-IsPlan s p h more rest id (unsnoc-append p.free rest id e)
  plan_from-IsPlan p none w h more e =
      bind-IfOk (IsNext p.next_page p.file_pages) (IsPlan s)
        (fresh_page f p.next_page p.file_pages w) _
        (fresh_page-IsNext f p.next_page p.file_pages w h.file_holds h.ids_left)
        (λ n w' g. add_fresh-IsPlan s p h more n g)

  -- From a plan that only took pages from the free list and from the end of the file, the loop of
  -- checkpoint either fails or ends with a plan that did so too, and whose list pages hold all
  -- entries.
  pub plan_loop-IsDone :
      (fuel : ℕ) (p : Plan) (w : F) → IsPlan s p → IfOk (IsDone s) (plan_loop f s fuel p w)
  unfolding plan_loop plan_round
  plan_loop-IsDone zero p w h =
      if-cases (λ (t : M Error F Plan). IfOk (IsDone s) (t w))
        (ltb (length p.lists) (pages_for (entry_count s p))) _ _ (λ e. tt)
        (λ e. (h, unfold pages_for in omega (arith, ltb→ge _ _ e)))
  plan_loop-IsDone (suc fuel) p w h =
      if-cases (λ (t : M Error F Plan). IfOk (IsDone s) (t w))
        (ltb (length p.lists) (pages_for (entry_count s p))) _ _
        (λ e.
          bind-IfOk (IsPlan s) (IsDone s) (plan_round f p w) _
            (plan_from-IsPlan p (unsnoc p.free) w h (ltb→lt _ _ e) refl)
            (λ q w' g. plan_loop-IsDone fuel q w' g))
        (λ e. (h, unfold pages_for in omega (arith, ltb→ge _ _ e)))

  -- A round adds one list page, and no entry.
  abbrev IsRound : Plan → Plan → Type 0
  IsRound p q = (length q.lists ≡ length p.lists + 1) × (entry_count s q ≤ entry_count s p)

  plan_from-IsRound :
      (p : Plan) (o : Option (List ℕ × ℕ)) (w : F)
      → unsnoc p.free ≡ o
      → IfOk (IsRound p) (plan_from f p o w)
  plan_from-IsRound p (some (rest, id)) w e =
      let split = ap length (unsnoc-append p.free rest id e) in
      (
        omega (arith, length-append p.lists (id ∷ [])),
        omega (arith, split, length-append rest (id ∷ [])),
      )
  plan_from-IsRound p none w e =
      bind-IfOk (λ _. Unit {0}) (IsRound p) (fresh_page f p.next_page p.file_pages w) _
        (any-IfOk _ _ (λ n. tt))
        (λ n w' g. (omega (arith, length-append p.lists (n.id ∷ [])), omega arith))

  fresh_page-ne-stuck : (next file : ℕ) (w : F) → IfErr (λ e. e ≢ stuck) (fresh_page f next file w)
  unfolding fresh_page
  fresh_page-ne-stuck next file w =
      if-cases (λ (t : M Error F Fresh). IfErr (λ e. e ≢ stuck) (t w)) (leb max_pages next) _ _
        (λ e p. cc)
        (λ e.
          if-cases (λ (t : M Error F Fresh). IfErr (λ e. e ≢ stuck) (t w)) (leb file next) _ _
            (λ e'.
              if-cases (λ (t : M Error F Fresh). IfErr (λ e. e ≢ stuck) (t w))
                (leb (grow_to file) next) _ _ (λ e'' p. cc)
                (λ e''.
                  bind-IfErr (λ _. Unit {0}) _ (lift page (Page.grow f file (grow_to file)) w) _
                    (any-IfOk _ _ (λ a. tt))
                    (wrap-IfErr _ page (Page.grow f file (grow_to file) w) (λ x p. cc))
                    (λ a w' q. tt)))
            (λ e'. tt))

  plan_from-ne-stuck :
      (p : Plan) (o : Option (List ℕ × ℕ)) (w : F) → IfErr (λ e. e ≢ stuck) (plan_from f p o w)
  plan_from-ne-stuck p (some (rest, id)) w = tt
  plan_from-ne-stuck p none w =
      bind-IfErr (λ _. Unit {0}) _ (fresh_page f p.next_page p.file_pages w) _
        (any-IfOk _ _ (λ n. tt)) (fresh_page-ne-stuck p.next_page p.file_pages w) (λ n w' q. tt)

  -- With as many rounds left as pagesFor asks for pages beyond those taken, the loop of checkpoint
  -- does not run out of rounds.
  pub plan_loop-ne-stuck :
      (fuel : ℕ) (p : Plan) (w : F)
      → pages_for (entry_count s p) ≤ length p.lists + fuel
      → IfErr (λ e. e ≢ stuck) (plan_loop f s fuel p w)
  unfolding plan_loop plan_round
  plan_loop-ne-stuck zero p w h =
      if-cases (λ (t : M Error F Plan). IfErr (λ e. e ≢ stuck) (t w))
        (ltb (length p.lists) (pages_for (entry_count s p))) _ _
        (λ e. absurd (omega (arith, ltb→lt _ _ e))) (λ e. tt)
  plan_loop-ne-stuck (suc fuel) p w h =
      if-cases (λ (t : M Error F Plan). IfErr (λ e. e ≢ stuck) (t w))
        (ltb (length p.lists) (pages_for (entry_count s p))) _ _
        (λ e.
          bind-IfErr (IsRound p) _ (plan_round f p w) _ (plan_from-IsRound p (unsnoc p.free) w refl)
            (plan_from-ne-stuck p (unsnoc p.free) w)
            (λ q w' g.
              plan_loop-ne-stuck fuel q w'
                (omega (arith, pages_for_mono (entry_count s q) (entry_count s p) g.1))))
        (λ e. tt)

  plan_from-Keeps :
      (P : ℕ → Type 0) (p : Plan) (o : Option (List ℕ × ℕ))
      → ((id : ℕ) → p.file_pages ≤ id → P id)
      → Keeps f P (plan_from f p o)
  plan_from-Keeps P p (some (rest, id)) h = λ w. Touch.stay
  plan_from-Keeps P p none h =
      >>=-Keeps _ _ (fresh_page-Keeps f P p.next_page p.file_pages h) (λ n w. Touch.stay)

  pub plan_loop-Touch :
      (P : ℕ → Type 0) (fuel : ℕ) (p : Plan) (w : F)
      → IsPlan s p
      → ((id : ℕ) → s.file_pages ≤ id → P id)
      → Touch f P w (plan_loop f s fuel p w).1
  unfolding plan_loop plan_round
  plan_loop-Touch P zero p w h k =
      if-cases (λ (t : M Error F Plan). Touch f P w (t w).1)
        (ltb (length p.lists) (pages_for (entry_count s p))) _ _ (λ e. Touch.stay) (λ e. Touch.stay)
  plan_loop-Touch P (suc fuel) p w h k =
      if-cases (λ (t : M Error F Plan). Touch f P w (t w).1)
        (ltb (length p.lists) (pages_for (entry_count s p))) _ _
        (λ e.
          bind-Touch_ok (IsPlan s) (plan_round f p w) _
            (plan_from-Keeps P p (unsnoc p.free) (λ id lo. k id (omega (arith, h.file_grows))) w)
            (plan_from-IsPlan p (unsnoc p.free) w h (ltb→lt _ _ e) refl)
            (λ q w' g. plan_loop-Touch P fuel q w' g k))
        (λ e. Touch.stay)
