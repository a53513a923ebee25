-- ===== src/Pagestore/Load/Written.antt =====
-- What the steps of a checkpoint have put on the disk where they succeed.
use scutedb.Base.{
  ℕ, zero, suc, ◌+◌, ◌^◌, ◌≤◌, ◌<◌, ◌≡◌, ◌∙◌, subst, arith, if-cases, List, [], ◌∷◌, length, count,
}
use scutedb.Base.{ltb, leb, Option, none, some}
use scutedb.Base.State.{M, lift, IfOkAt, bind-IfOkAt, wrap-IfOkAt, also-IfOkAt}
use scutedb.Fileio.{File}
use scutedb.Fileio.Laws.{IsFile}
use scutedb.Fileio.Disk.{IsDisk}
use scutedb.Page.{Page}
use scutedb.Page
use scutedb.Page.Disk.{page_at, Holds, grow-Holds, write-page_at, page_at-Touch}
use scutedb.Pagestore.Types.{Store, Error, page, max_pages}
use scutedb.Pagestore.Format.{grow_to, free_list_bytes, pages_for}
use scutedb.Pagestore.Ops.{Fresh, fresh_page}
use scutedb.Pagestore.Checkpoint.{
  Plan, entry_count, plan_from, plan_round, plan_loop, next_list, chunk, write_lists,
}
use scutedb.Base.{unsnoc}
use scutedb.Pagestore.Sound.Checkpoint.{get_id-free_list_bytes, write_lists-Touch}
use scutedb.Pagestore.Load.Chain.{OnChain}

module _ {F : Type 0} {f : File F} (law : IsFile f) (disk : IsDisk f law) where
  pub fresh_page-Holds :
      (next file : ℕ) (w : F)
      → Holds law disk file w
      → IfOkAt (λ (n : Fresh) v. Holds law disk n.file_pages v) (fresh_page f next file w)
  unfolding fresh_page
  fresh_page-Holds next file w h =
      if-cases Good (leb max_pages next) _ _ (λ e. tt)
        (λ e.
          if-cases Good (leb file next) _ _
            (λ e'.
              if-cases Good (leb (grow_to file) next) _ _ (λ e''. tt)
                (λ e''.
                  bind-IfOkAt (λ _ v. Holds law disk (grow_to file) v) _
                    (lift page (Page.grow f file (grow_to file)) w) _
                    (wrap-IfOkAt _ page (Page.grow f file (grow_to file) w)
                      (grow-Holds law disk file (grow_to file) w h))
                    (λ u v g. g)))
            (λ e'. h))
    where
      Good : M Error F Fresh → Type 0
      Good t = IfOkAt (λ (n : Fresh) v. Holds law disk n.file_pages v) (t w)

  abbrev PlanHolds : Plan → F → Type 0
  PlanHolds p v = Holds law disk p.file_pages v

  plan_from-Holds :
      (p : Plan) (o : Option (List ℕ × ℕ)) (w : F)
      → PlanHolds p w
      → IfOkAt PlanHolds (plan_from f p o w)
  plan_from-Holds p (some (rest, id)) w h = h
  plan_from-Holds p none w h =
      bind-IfOkAt (λ (n : Fresh) v. Holds law disk n.file_pages v) PlanHolds
        (fresh_page f p.next_page p.file_pages w) _ (fresh_page-Holds p.next_page p.file_pages w h)
        (λ n v g. g)

  -- The file has room for the pages that the plan counts.
  pub plan_loop-Holds :
      (s : Store) (fuel : ℕ) (p : Plan) (w : F)
      → PlanHolds p w
      → IfOkAt PlanHolds (plan_loop f s fuel p w)
  unfolding plan_loop plan_round
  plan_loop-Holds s zero p w h =
      if-cases (λ (t : M Error F Plan). IfOkAt PlanHolds (t w))
        (ltb (length p.lists) (pages_for (entry_count s p))) _ _ (λ e. tt) (λ e. h)
  plan_loop-Holds s (suc fuel) p w h =
      if-cases (λ (t : M Error F Plan). IfOkAt PlanHolds (t w))
        (ltb (length p.lists) (pages_for (entry_count s p))) _ _
        (λ e.
          bind-IfOkAt PlanHolds PlanHolds (plan_round f p w) _
            (plan_from-Holds p (unsnoc p.free) w h) (λ q v g. plan_loop-Holds s fuel q v g))
        (λ e. h)

  -- List pages with different ids, once written, hold the entries.
  pub write_lists-OnChain :
      (es : List ℕ) (i : ℕ) (ids : List ℕ) (w : F)
      → ((id : ℕ) → count id ids ≤ 1)
      → ((id : ℕ) → 1 ≤ count id ids → id < 2 ^ 32)
      → IfOkAt (λ _ v. OnChain law disk v es i ids) (write_lists f es i ids w)
  unfolding write_lists
  write_lists-OnChain es i [] w once fits = tt
  write_lists-OnChain es i (id ∷ ids) w once fits =
      bind-IfOkAt (λ _ v. page_at law disk v id ≡ p) _ (lift page (Page.write f p) w) _
        (wrap-IfOkAt _ page (Page.write f p w) (
          subst (λ j. IfOkAt (λ _ v. page_at law disk v j ≡ p) (Page.write f p w)) this
            (write-page_at law disk p w)))
        (λ u v here.
          let kept : page_at law disk (write_lists f es (i + 1) ids v).1 id
              ≡ page_at law disk v id =
            page_at-Touch law disk (λ j. 1 ≤ count j ids) id (λ q. ground (arith, once id))
              (write_lists-Touch f (λ j. 1 ≤ count j ids) es (i + 1) ids
                (λ j q. (q, fits j (ground arith))) v) in
          also-IfOkAt (λ t. page_at law disk t id ≡ p) (λ _ t. OnChain law disk t es (i + 1) ids)
            (write_lists f es (i + 1) ids v) (kept ∙ here)
            (write_lists-OnChain es (i + 1) ids v (λ j. ground (arith, once j))
              (λ j q. fits j (ground arith))))
    where
      p : Page
      p = free_list_bytes id (next_list ids) (chunk es i)

      this : Page.get_id p ≡ id
      this = get_id-free_list_bytes id (next_list ids) (chunk es i) (fits id (ground arith))
