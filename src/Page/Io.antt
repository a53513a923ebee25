-- ===== src/Page/Io.antt =====
-- Which pages the operations of a page file may write, whatever the file answers.
use scutedb.Base.{
  ℕ, zero, suc, ◌+◌, ◌-◌, ◌*◌, ◌≤◌, ◌<◌, ◌≡◌, refl, subst, arith, List, length, replicate,
}
use scutedb.Base.{
  length-replicate, ltb, leb, ◌==◌, ==→eq, if◌then◌else◌, Bool, true, false, Bool-cases, inl, inr,
  Option, none, some, Result, ok, err,
}
use scutedb.Base.State.{M, ◌>>=◌, wrap, lift, bind, IfOk}
use scutedb.Fileio.{File, IoError}
use scutedb.Fileio.Touch.{page_size, Within, Touch, Touch-trans}
use scutedb.Page.{
  Page, io, get_id, page_count, read, finish, finish_read, write, grow_piece, grow_loop, grow, sync,
  close,
}

Within-page : (P : ℕ → Type 0) (id n : ℕ) → n ≡ page_size → P id → Within P (id * page_size) n
Within-page P id n hn p k lo hi = subst P (omega arith) p

grow_round :
    (P : ℕ → Type 0) (at step to : ℕ)
    → at + step ≤ to
    → ((id : ℕ) → at ≤ id → id < to → P id)
    → Within P (at * page_size) (length (replicate {A = ℕ} (step * page_size) 0))
grow_round P at step to fits h id lo hi =
    let size = length-replicate {A = ℕ} (step * page_size) 0 in h id (omega arith) (omega arith)

module _ {F : Type 0} (f : File F) (P : ℕ → Type 0) where
  -- The step writes in pages that satisfy `P` only, on every branch.
  abbrev pub Keeps : {E A : Type 0} → M E F A → Type 0
  Keeps m = (s : F) → Touch f P s (m s).1

module _ {F : Type 0} {f : File F} {P : ℕ → Type 0} where
  bind-Touch :
      {E A B : Type 0} {s : F} (w : Result E A × F) (k : A → M E F B)
      → Touch f P s w.1
      → ((a : A) → Keeps f P (k a))
      → Touch f P s (bind w k).1
  bind-Touch (ok a, s) k t h = Touch-trans f t (h a s)
  bind-Touch (err e, s) k t h = t

  -- The next step's writes may depend on what the first step's result satisfies.
  pub bind-Touch_ok :
      {E A B : Type 0} {s : F} (Q : A → Type 0) (w : Result E A × F) (k : A → M E F B)
      → Touch f P s w.1
      → IfOk Q w
      → ((a : A) (g : F) → Q a → Touch f P g (k a g).1)
      → Touch f P s (bind w k).1
  bind-Touch_ok Q (ok a, s) k t q h = Touch-trans f t (h a s q)
  bind-Touch_ok Q (err e, s) k t q h = t

  pub >>=-Keeps :
      {E A B : Type 0} (m : M E F A) (k : A → M E F B)
      → Keeps f P m
      → ((a : A) → Keeps f P (k a))
      → Keeps f P (m >>= k)
  >>=-Keeps m k hm hk s = bind-Touch (m s) k (hm s) hk

  finish-Touch : {s : F} (w : Option IoError × F) → Touch f P s w.1 → Touch f P s (finish w).1
  finish-Touch (none, s) t = t
  finish-Touch (some e, s) t = t

  wrap-Touch :
      {E E' A : Type 0} {s : F} (g : E → E') (w : Result E A × F)
      → Touch f P s w.1
      → Touch f P s (wrap g w).1
  wrap-Touch g (ok a, s) t = t
  wrap-Touch g (err e, s) t = t

  finish_read-Touch :
      {s : F} (w : List ℕ × Option IoError × F) → Touch f P s w.2 → Touch f P s (finish_read w).1
  finish_read-Touch (p, none, s) t = t
  finish_read-Touch (p, some e, s) t = t

  pub lift-Keeps : {E E' A : Type 0} (g : E → E') (m : M E F A) → Keeps f P m → Keeps f P (lift g m)
  lift-Keeps g m h s = wrap-Touch g (m s) (h s)

  pub if-Keeps :
      {E A : Type 0} (b : Bool) (m n : M E F A)
      → (b ≡ true → Keeps f P m)
      → Keeps f P n
      → Keeps f P (if b then m else n)
  if-Keeps true m n hm hn = hm refl
  if-Keeps false m n hm hn = hn

  pub write-Touch : (p : Page) → P (get_id p) → Keeps f P (write f p)
  unfolding write
  write-Touch p h s = elim (Bool-cases (length p == page_size)) [
    | inl e ↦ rw e (
        finish-Touch _
          (Touch.writes p _ (Within-page P (get_id p) (length p) (==→eq _ _ e) h) Touch.stay))
    | inr e ↦ rw e Touch.stay
  ]

  pub read-Touch : (id : ℕ) → Keeps f P (read f id)
  unfolding read
  read-Touch id s =
      finish_read-Touch (f.read_at s page_size (id * page_size))
        (Touch.reads page_size (id * page_size) Touch.stay)

  pub sync-Touch : Keeps f P (sync f)
  unfolding sync
  sync-Touch s = finish-Touch _ (Touch.syncs Touch.stay)

  pub close-Touch : Keeps f P (close f)
  unfolding close
  close-Touch s = finish-Touch _ (Touch.closes Touch.stay)

  pub page_count-Touch : Keeps f P (page_count f)
  unfolding page_count
  page_count-Touch =
      >>=-Keeps _ _ (λ s. wrap-Touch io _ (Touch.sizes Touch.stay)) (λ a s. Touch.stay)

  grow_loop-Touch :
      (fuel at to : ℕ) → ((id : ℕ) → at ≤ id → id < to → P id) → Keeps f P (grow_loop f fuel at to)
  unfolding grow_loop
  grow_loop-Touch zero at to h = λ s. Touch.stay
  grow_loop-Touch (suc fuel) at to h =
      if-Keeps (ltb at to) _ _
        (λ below.
          >>=-Keeps _ _
            (λ s.
              finish-Touch _
                (Touch.writes _ _ (grow_round P at step to (ground arith) h) Touch.stay))
            (λ _. grow_loop-Touch fuel (at + step) to (λ id lo hi. h id (omega arith) hi)))
        (λ s. Touch.stay)
    where
      step : ℕ
      step = if ltb grow_piece (to - at) then grow_piece else to - at

  pub grow-Touch :
      (from to : ℕ) → ((id : ℕ) → from ≤ id → id < to → P id) → Keeps f P (grow f from to)
  unfolding grow
  grow-Touch from to h =
      if-Keeps (leb to from) _ _ (λ _ s. Touch.stay) (grow_loop-Touch (to - from) from to h)
