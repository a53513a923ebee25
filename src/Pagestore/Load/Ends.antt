-- ===== src/Pagestore/Load/Ends.antt =====
-- readFreeList ends, also on a file that was made to mislead it.
use scutedb.Base.Missing.{unseen, unseen_all, unseen_less}
use scutedb.Page.{get_id}
use scutedb.Page.{kind_free_list}
use scutedb.Page.{get_kind}
use scutedb.Base.{not}
use scutedb.Base.{ℕ, zero, suc, ◌+◌, ◌≤◌, ◌≢◌, arith, List, [], if-cases}
use scutedb.Base.{ltb, leb, ◌==◌, has, length, get_uint, ◌%◌, ◌^◌}
use scutedb.Base.State.{M, IfErr, bind-IfErr, any-IfOk, wrap-IfErr, lift}
use scutedb.Fileio.{File}
use scutedb.Page.{Page, get_item_count, get_kind, get_id, kind_free_list}
use scutedb.Page
use scutedb.Pagestore.Types.{
  Meta, Error, stuck, page, off_free_list_next, no_page, free_list_capacity,
}
use scutedb.Pagestore.Load.{check_list_page, of_result, read_chain, read_free_list}

check_list_page-ne-stuck :
    {F : Type 0} (p : Page) (id : ℕ) (w : F)
    → IfErr (λ e. e ≢ stuck) (of_result (check_list_page p id) w)
check_list_page-ne-stuck p id w =
    if-cases (λ r. IfErr (λ e. e ≢ stuck) (of_result r w)) (not (get_kind p == kind_free_list)) _ _
      (λ _ q. cc)
      (λ _.
        if-cases (λ r. IfErr (λ e. e ≢ stuck) (of_result r w)) (not (get_id p == id)) _ _
          (λ _ q. cc)
          (λ _.
            if-cases (λ r. IfErr (λ e. e ≢ stuck) (of_result r w))
              (ltb free_list_capacity (get_item_count p)) _ _ (λ _ q. cc) (λ _. tt)))

module _ {F : Type 0} (f : File F) (m : Meta) where
  read_chain-ne-stuck :
      (fuel id : ℕ) (es ls : List ℕ) (w : F)
      → unseen m.next_page ls + 1 ≤ fuel
      → IfErr (λ e. e ≢ stuck) (read_chain f m fuel id es ls w)
  unfolding read_chain
  read_chain-ne-stuck zero id es ls w h = absurd (omega arith)
  read_chain-ne-stuck (suc fuel) id es ls w h =
      if-cases (λ (t : M Error F (List ℕ × List ℕ)). IfErr (λ e. e ≢ stuck) (t w)) (id == no_page) _
        _ (λ _. tt)
        (λ _.
          if-cases (λ (t : M Error F (List ℕ × List ℕ)). IfErr (λ e. e ≢ stuck) (t w))
            (leb m.next_page id) _ _ (λ _ q. cc)
            (λ low.
              if-cases (λ (t : M Error F (List ℕ × List ℕ)). IfErr (λ e. e ≢ stuck) (t w))
                (has id ls) _ _ (λ _ q. cc)
                (λ new.
                  bind-IfErr (λ _. Unit {0}) _ (lift page (Page.read f id) w) _
                    (any-IfOk _ _ (λ _. tt)) (wrap-IfErr _ page (Page.read f id w) (λ x q. cc))
                    (λ p w1 _.
                      bind-IfErr (λ _. Unit {0}) _ (of_result (check_list_page p id) w1) _
                        (any-IfOk _ _ (λ _. tt)) (check_list_page-ne-stuck p id w1)
                        (λ u w2 _.
                          read_chain-ne-stuck fuel (get_uint 4 p off_free_list_next) _ _ w2
                            (omega (arith, unseen_less m.next_page id ls (ground arith) new)))))))

  -- Whatever the file holds and answers, also where the chain of list pages is a loop, the loop of
  -- readFreeList ends within as many rounds as pages are handed out, and one: the model never runs out
  -- of its rounds, which would be the error `stuck`.
  pub read_free_list-ne-stuck : (w : F) → IfErr (λ e. e ≢ stuck) (read_free_list f m w)
  unfolding read_free_list
  read_free_list-ne-stuck w =
      bind-IfErr (λ _. Unit {0}) _ (read_chain f m (suc m.next_page) m.free_list_page [] [] w) _
        (any-IfOk _ _ (λ _. tt))
        (read_chain-ne-stuck (suc m.next_page) m.free_list_page [] [] w
          (omega (arith, unseen_all m.next_page)))
        (λ r w1 _.
          if-cases (λ (t : M Error F (List ℕ × List ℕ)). IfErr (λ e. e ≢ stuck) (t w1))
            (length r.0 % 2 ^ 32 == m.free_count) _ _ (λ _. tt) (λ _ q. cc))
