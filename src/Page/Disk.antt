-- ===== src/Page/Disk.antt =====
-- What the pages of a file in working order hold.
use scutedb.Page.{Error}
use scutedb.Base.{
  ℕ, zero, suc, ◌+◌, ◌-◌, ◌*◌, ◌≤◌, ◌≡◌, refl, sym, ap, ◌∙◌, arith, List, length, replicate,
  length-replicate,
}
use scutedb.Base.{
  Bool-cases, inl, inr, ltb, ltb→ge, leb, ◌==◌, ==→eq, if◌then◌else◌, if-cases, ok, Option, none,
  some,
}
use scutedb.Base.State.{M, IfOkAt, bind-IfOkAt}
use scutedb.Fileio.{File, IoError}
use scutedb.Fileio.Touch.{page_size, Touch}
use scutedb.Fileio.Laws.{IsFile, Touch-cell}
use scutedb.Fileio.Disk.{IsDisk, bytes_at, length-bytes_at, bytes_at_ext, bytes_at_put}
use scutedb.Page.{Page, get_id, finish, finish_read, read, write, grow_loop, grow, grow_piece}

module _ {F : Type 0} {f : File F} (law : IsFile f) (disk : IsDisk f law) where
  -- The page with this id, as it is on the disk.
  abbrev pub page_at : F → ℕ → Page
  page_at w id = bytes_at (law.cell w) (id * page_size) page_size

  -- The file holds the same bytes.
  pub record IsSame (w v : F) : Type 0 where
    pub same_cells : (i : ℕ) → law.cell v i ≡ law.cell w i
    pub same_extent : disk.extent v ≡ disk.extent w

  pub IsSame-trans : {w v u : F} → IsSame w v → IsSame v u → IsSame w u
  IsSame-trans h k = record {
    same_cells = λ i. k.same_cells i ∙ h.same_cells i;
    same_extent = k.same_extent ∙ h.same_extent;
  }

  pub page_at-IsSame : (w v : F) (id : ℕ) → IsSame w v → page_at v id ≡ page_at w id
  page_at-IsSame w v id h =
      bytes_at_ext (law.cell v) (law.cell w) (id * page_size) page_size (λ i lo hi. h.same_cells i)

  finish_read-full :
      (r : List ℕ × Option IoError × F) → length r.0 ≡ page_size → finish_read r ≡ (ok r.0, r.2)
  finish_read-full (p, none, v) h = rw h refl
  finish_read-full (p, some e, v) h = rw h refl

  -- A read of a page inside the file succeeds.
  pub read-page_at :
      (w : F) (id : ℕ)
      → id * page_size + page_size ≤ disk.extent w
      → (v : F) × (read f id w ≡ (ok (page_at w id), v)) × IsSame w v
  unfolding read
  read-page_at w id h =
      let r = f.read_at w page_size (id * page_size) in
      let got : r.0 ≡ page_at w id = disk.read_back w page_size (id * page_size) h in
      (
        r.2,
        finish_read-full r (ap length got ∙ length-bytes_at _ _ page_size)
            ∙ ap (λ p. (ok p, r.2)) got,
        record {
          same_cells = λ i. law.after_read w page_size (id * page_size) i;
          same_extent = disk.read_keeps w page_size (id * page_size);
        },
      )

  -- A page that file operations did not write is as it was.
  pub page_at-Touch :
      (P : ℕ → Type 0) (id : ℕ) {w v : F} → ¬ P id → Touch f P w v → page_at v id ≡ page_at w id
  page_at-Touch P id {w} {v} np t =
      bytes_at_ext (law.cell v) (law.cell w) (id * page_size) page_size (λ i lo hi.
        let at : i ≡ id * page_size + (i - id * page_size) = omega arith in
        ap (law.cell v) at
        ∙ Touch-cell f law P id (i - id * page_size) np (omega arith) t
        ∙ ap (law.cell w) (sym at))

  finish-put :
      (p : Page) (r : Option IoError × F)
      → (r.0 ≡ none → page_at r.1 (get_id p) ≡ p)
      → IfOkAt (λ (_ : Unit {0}) v. page_at v (get_id p) ≡ p) (finish r)
  finish-put p (none, v) h = h refl
  finish-put p (some e, v) h = tt

  -- A write that succeeds has put the page on the disk.
  pub write-page_at : (p : Page) (w : F) → IfOkAt (λ _ v. page_at v (get_id p) ≡ p) (write f p w)
  unfolding write
  write-page_at p w = elim (Bool-cases (length p == page_size)) [
    | inl e ↦ rw e (
        finish-put p r (λ none_yet.
          ap (bytes_at (law.cell r.1) off) (sym (==→eq _ _ e))
          ∙ bytes_at_put (law.cell r.1) off p (λ i lt. disk.written w p off i none_yet lt)))
    | inr e ↦ rw e tt
  ]
    where
      off : ℕ
      off = get_id p * page_size

      r : Option IoError × F
      r = f.write_at w p off

  -- The file has room for so many pages.
  abbrev pub Holds : ℕ → F → Type 0
  Holds n w = n * page_size ≤ disk.extent w

  finish-reaches :
      (n : ℕ) (r : Option IoError × F)
      → (r.0 ≡ none → Holds n r.1)
      → IfOkAt (λ (_ : Unit {0}) v. Holds n v) (finish r)
  finish-reaches n (none, v) h = h refl
  finish-reaches n (some e, v) h = tt

  grow_loop-Holds :
      (fuel at to : ℕ) (w : F)
      → to ≤ at + fuel
      → Holds at w
      → IfOkAt (λ _ v. Holds to v) (grow_loop f fuel at to w)
  unfolding grow_loop
  grow_loop-Holds zero at to w enough h = omega arith
  grow_loop-Holds (suc fuel) at to w enough h =
      if-cases (λ (t : M Error F (Unit {0})). IfOkAt (λ _ v. Holds to v) (t w)) (ltb at to) _ _
        (λ below.
          bind-IfOkAt (λ _ v. Holds (at + step) v) (λ _ v. Holds to v) (finish r) _
            (finish-reaches (at + step) r (λ done. omega (
              arith,
              disk.write_reaches w bs (at * page_size) done,
              length-replicate {A = ℕ} (step * page_size) 0,
            )))
            (λ u v g. grow_loop-Holds fuel (at + step) to v (ground (arith, below)) g))
        (λ e. omega (arith, ltb→ge _ _ e))
    where
      step : ℕ
      step = if ltb grow_piece (to - at) then grow_piece else to - at

      bs : List ℕ
      bs = replicate (step * page_size) 0

      r : Option IoError × F
      r = f.write_at w bs (at * page_size)

  -- Growing a file that holds `from` pages to `to` pages makes it hold them.
  pub grow-Holds :
      (from to : ℕ) (w : F) → Holds from w → IfOkAt (λ _ v. Holds to v) (grow f from to w)
  unfolding grow
  grow-Holds from to w h =
      if-cases (λ (t : M Error F (Unit {0})). IfOkAt (λ _ v. Holds to v) (t w)) (leb to from) _ _
        (λ e. ground (arith, e)) (λ e. grow_loop-Holds (to - from) from to w (omega arith) h)
