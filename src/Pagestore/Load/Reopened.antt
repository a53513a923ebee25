-- ===== src/Pagestore/Load/Reopened.antt =====
-- What a crash leaves after load: all of the file, since load writes the meta page again and syncs.
use scutedb.Base.{
  ℕ, zero, suc, ◌≡◌, [], List, length, true, if-cases, leb, ◌==◌, ◌%◌, ◌^◌, has, Result, ok, err,
  get_uint,
}
use scutedb.Base.State.{M, lift, IfOkAt, bind-IfOkAt, wrap-IfOkAt}
use scutedb.Fileio.{File}
use scutedb.Fileio.Laws.{IsFile}
use scutedb.Fileio.Disk.{IsDisk}
use scutedb.Fileio.Held.{IsSyncing, IsHeld}
use scutedb.Page
use scutedb.Page.{get_item_count}
use scutedb.Page.Sync.{
  StaysWhole, read-StaysWhole, write-StaysWhole, page_count-StaysWhole, sync-IsHeld,
}
use scutedb.Pagestore.Types.{Meta, Error, page, meta_page, no_page, off_free_list_next}
use scutedb.Pagestore.Format.{encode_meta, decode_meta}
use scutedb.Pagestore.Verify.{check_free_set, verify_live}
use scutedb.Pagestore.Load.{
  of_result, check_meta, check_list_page, read_chain, read_free_list, loaded, load,
}

module _ {F : Type 0} {f : File F} {law : IsFile f} {disk : IsDisk f law}
    (syncing : IsSyncing f law disk) where
  abbrev Still : {A : Type 0} → A → F → Type 0
  Still a v = syncing.whole v ≡ true

  of_result-StaysWhole :
      {A : Type 0} (r : Result Error A) (w : F)
      → syncing.whole w ≡ true
      → StaysWhole syncing (of_result r w)
  of_result-StaysWhole (ok a) w h = h
  of_result-StaysWhole (err e) w h = tt

  page-StaysWhole :
      (id : ℕ) (w : F) → syncing.whole w ≡ true → StaysWhole syncing (lift page (Page.read f id) w)
  page-StaysWhole id w h = wrap-IfOkAt _ page (Page.read f id w) (read-StaysWhole syncing id w h)

  read_chain-StaysWhole :
      (m : Meta) (fuel id : ℕ) (es ls : List ℕ) (w : F)
      → syncing.whole w ≡ true
      → StaysWhole syncing (read_chain f m fuel id es ls w)
  unfolding read_chain
  read_chain-StaysWhole m zero id es ls w h = if-cases Good (id == no_page) _ _ (λ e. h) (λ e. tt)
    where
      Good : M Error F (List ℕ × List ℕ) → Type 0
      Good t = StaysWhole syncing (t w)
  read_chain-StaysWhole m (suc fuel) id es ls w h =
      if-cases Good (id == no_page) _ _ (λ e. h)
        (λ e.
          if-cases Good (leb m.next_page id) _ _ (λ e'. tt)
            (λ e'.
              if-cases Good (has id ls) _ _ (λ e''. tt)
                (λ e''.
                  bind-IfOkAt Still _ (lift page (Page.read f id) w) _ (page-StaysWhole id w h)
                    (λ p w1 h1.
                      bind-IfOkAt Still _ (of_result (check_list_page p id) w1) _
                        (of_result-StaysWhole (check_list_page p id) w1 h1)
                        (λ u w2 h2.
                          read_chain-StaysWhole m fuel (get_uint 4 p off_free_list_next) _ _ w2
                            h2)))))
    where
      Good : M Error F (List ℕ × List ℕ) → Type 0
      Good t = StaysWhole syncing (t w)

  read_free_list-StaysWhole :
      (m : Meta) (w : F) → syncing.whole w ≡ true → StaysWhole syncing (read_free_list f m w)
  unfolding read_free_list
  read_free_list-StaysWhole m w h =
      bind-IfOkAt Still _ (read_chain f m (suc m.next_page) m.free_list_page [] [] w) _
        (read_chain-StaysWhole m (suc m.next_page) m.free_list_page [] [] w h)
        (λ r v g.
          if-cases (λ (t : M Error F (List ℕ × List ℕ)). StaysWhole syncing (t v))
            (length r.0 % 2 ^ 32 == m.free_count) _ _ (λ e. g) (λ e. tt))

  -- After load returned a store, from a file of which no sync has failed, a crash loses nothing of it.
  pub load-IsHeld : (w : F) → syncing.whole w ≡ true → IfOkAt (λ _ v. IsHeld syncing v) (load f w)
  unfolding load
  load-IsHeld w h =
      bind-IfOkAt Still _ (lift page (Page.read f meta_page) w) _ (page-StaysWhole meta_page w h)
        (λ raw w1 h1.
          bind-IfOkAt Still _ (of_result (decode_meta raw) w1) _ (of_result-StaysWhole _ w1 h1)
            (λ m w2 h2.
              bind-IfOkAt Still _ (lift page (Page.page_count f) w2) _
                (wrap-IfOkAt _ page (Page.page_count f w2) (page_count-StaysWhole syncing w2 h2))
                (λ n w3 h3.
                  bind-IfOkAt Still _ (of_result (check_meta m n) w3) _
                    (of_result-StaysWhole _ w3 h3)
                    (λ _ w4 h4.
                      bind-IfOkAt Still _ (read_free_list f m w4) _
                        (read_free_list-StaysWhole m w4 h4)
                        (λ r w5 h5.
                          bind-IfOkAt Still _ (of_result (check_free_set m r.0 r.1) w5) _
                            (of_result-StaysWhole _ w5 h5)
                            (λ _ w6 h6.
                              bind-IfOkAt Still _
                                (of_result (verify_live (loaded m r.0 r.1) n r.0 r.1) w6) _
                                (of_result-StaysWhole _ w6 h6)
                                (λ _ w7 h7.
                                  bind-IfOkAt Still _ (lift page (Page.write f (encode_meta m)) w7)
                                    _
                                    (wrap-IfOkAt _ page (Page.write f (encode_meta m) w7)
                                      (write-StaysWhole syncing (encode_meta m) w7 h7))
                                    (λ _ w8 h8.
                                      bind-IfOkAt (λ _ v. IsHeld syncing v) _
                                        (lift page (Page.sync f) w8) _
                                        (wrap-IfOkAt _ page (Page.sync f w8)
                                          (sync-IsHeld syncing w8 h8))
                                        (λ _ w9 h9. h9)))))))))
