-- ===== src/Pagestore/Run/Recover.antt =====
-- What load finds where the pages that the last checkpoint reaches are as it left them.
use scutedb.Base.{
  ℕ, ◌+◌, ◌-◌, ◌*◌, ◌≤◌, ◌<◌, ◌≡◌, ◌⊎◌, inl, inr, refl, sym, ap, ◌∙◌, arith, count, ok,
}
use scutedb.Fileio.{File}
use scutedb.Fileio.Touch.{page_size}
use scutedb.Fileio.Laws.{IsFile}
use scutedb.Fileio.Disk.{IsDisk, IsWilling, bytes_at_ext}
use scutedb.Page.Disk.{page_at}
use scutedb.Pagestore.Types.{meta_page}
use scutedb.Base.{subst}
use scutedb.Pagestore.Types.{Store, no_stats}
use scutedb.Page.Disk.{Holds}
use scutedb.Pagestore.Checkpoint.{checkpoint}
use scutedb.Pagestore.Sound.Checkpoint.{base_after, checkpoint-IsSound}
use scutedb.Pagestore.Load.Durable.{checkpoint-IsWritten}
use scutedb.Pagestore.Run.Backed.{Quietly-IsBacked}
use scutedb.Pagestore.Sound.{IsSound}
use scutedb.Pagestore.Load.{load, loaded}
use scutedb.Pagestore.Load.Chain.{OnChain-moved}
use scutedb.Pagestore.Load.Recover.{OnDisk, load-OnDisk}
use scutedb.Pagestore.Run.{World, Quietly}
use scutedb.Pagestore.Run.Crash.{IsReached, reached_lem}

module _ {F G : Type 0} {f : File F} {g : File G} (law : IsFile f) (disk : IsDisk f law)
    (law' : IsFile g) (disk' : IsDisk g law') where
  -- What a crash leaves of the file `w`: the pages that the last checkpoint of `x` reaches, and the
  -- length. Any other page may hold anything, such as half of a write.
  pub record Survives (x : World F) (w : F) (v : G) : Type 0 where
    pub kept :
        (id k : ℕ)
        → IsReached x.base x.store id
        → k < page_size
        → law'.cell v (id * page_size + k) ≡ law.cell w (id * page_size + k)
    pub as_long : x.store.durable.file_pages * page_size ≤ disk'.extent v

  page_at-moved :
      (w : F) (v : G) (id : ℕ)
      → ((k : ℕ)
          → k < page_size
          → law'.cell v (id * page_size + k) ≡ law.cell w (id * page_size + k))
      → page_at law' disk' v id ≡ page_at law disk w id
  page_at-moved w v id h =
      bytes_at_ext (law'.cell v) (law.cell w) (id * page_size) page_size (λ i lo hi.
        let at : i ≡ id * page_size + (i - id * page_size) = omega arith in
        ap (law'.cell v) at ∙ h (i - id * page_size) (omega arith) ∙ ap (law.cell w) (sym at))

  pub OnDisk-moved :
      (x : World F) (v : G)
      → IsSound x.base x.store
      → Survives x x.file v
      → OnDisk law disk x.file x.store.durable x.base x.store.list_page
      → OnDisk law' disk' v x.store.durable x.base x.store.list_page
  OnDisk-moved x v h alive d =
      let had : 1 ≤ x.store.durable.next_page = d.recorded.file_holds.0 in
      let same : (id : ℕ)
          → (id ≡ 0) ⊎ (1 ≤ count id x.store.list_page) ⊎ (id ≡ x.store.durable.root)
          → page_at law' disk' v id ≡ page_at law disk x.file id =
        λ id why.
          page_at-moved x.file v id
            (λ k hk. alive.kept id k (reached_lem x.base x.store id h had why) hk) in
      record {
        recorded = d.recorded;
        meta_there = same meta_page (inl refl) ∙ d.meta_there;
        lists_there =
            OnChain-moved law disk law' disk' x.file v x.base 0 x.store.list_page
              (λ id q. same id (inr (inl q))) d.lists_there;
        backed = alive.as_long;
      }

  -- Load finds the last checkpoint where the pages that it reaches survived.
  pub load-Survives :
      (x : World F) (v : G)
      → IsSound x.base x.store
      → OnDisk law disk x.file x.store.durable x.base x.store.list_page
      → Survives x x.file v
      → IsWilling g
      → (u : G) × (load g v ≡ (ok (loaded x.store.durable x.base x.store.list_page), u))
  load-Survives x v h d alive will =
      load-OnDisk law' disk' x.store.durable x.base x.store.list_page v will
        (OnDisk-moved x v h alive d)

  -- The world after a checkpoint that succeeded, its free list the last checkpoint's.
  abbrev pub after : World F → World F
  after y = record {
    base = (checkpoint f y.store y.file).1.free;
    store = (checkpoint f y.store y.file).1;
    file = (checkpoint f y.store y.file).2;
  }

  pub after-IsSound :
      (y : World F)
      → IsSound y.base y.store
      → (checkpoint f y.store y.file).0 ≡ ok tt
      → IsSound (after y).base (after y).store
  after-IsSound y h done =
      subst (λ res. IsSound (base_after y.base res (after y).store) (after y).store) done
        (checkpoint-IsSound f y.base y.store h y.file)

  -- From a store that satisfies the invariant, over a file with room for the pages that it counts,
  -- let a client make any calls but checkpoints and Writes to pages that the last checkpoint
  -- reaches, and then a checkpoint that returns no error. If the pages that this checkpoint reaches
  -- are what it left there, and the file works, then load finds the store that the client had: its
  -- root, its counts, its free list and its marks, with the counters of the session at 0.
  pub load-checkpoint :
      {x y : World F} (v : G)
      → IsSound x.base x.store
      → Holds law disk x.store.file_pages x.file
      → Quietly f x y
      → (checkpoint f y.store y.file).0 ≡ ok tt
      → Survives (after y) (after y).file v
      → IsWilling g
      → (u : G) × (load g v ≡ (ok (record (checkpoint f y.store y.file).1 { stats = no_stats }), u))
  load-checkpoint {x} {y} v h room r done alive will =
      let (sound, there) = Quietly-IsBacked law disk h r room in
      let d = checkpoint-IsWritten law disk y.base y.store sound y.file there done in
      let (u, got) = load-Survives (after y) v (after-IsSound y sound done) d.on_disk alive will in
      (u, got ∙ ap (λ (s : Store). (ok s, u)) d.same_store)
