-- ===== src/Lfs/Upload/Outcomes.antt =====
-- What an upload that succeeds has stored, and what one that is refused leaves of the tables.
use rgit.Common.{
  false, ltb, ◌&&◌, zero, suc, ◌∙◌, ℕ, ◌≤◌, ◌≡◌, refl, Str, Bool, true, ◌&&◌, List, [], ◌∷◌, ℤ, pos,
  any, find, length, str_eq_refl, Option, none, some, is_some, arith, Bool-cases, Option-cases, inl,
  inr, find-Mem, any-of_Mem,
}
use rgit.Store.{Db, World}
use rgit.Models.{LfsObject}
use rgit.Outcome.{done, L, ◌>>◌}
use rgit.Lfs.Objects.{is_object, is_linked, linked_size, link, size_of}
use rgit.Lfs.Upload.{
  call, receive, put_file, rename_part, insert_object, link_object, record_rows, prepared, finish,
  store_streaming,
}
use rgit.Lfs.Upload.Stored.{
  Quiet, bind-eq-done, after-Quiet, concat, receive-done, call-Quiet, bind-Quiet, prepared-Quiet,
  prepared-digest, received-Quiet,
}

abbrev four_calls : L (Unit {0})
four_calls = call >> call >> call >> call

four_calls-Quiet : Quiet four_calls
four_calls-Quiet =
    bind-Quiet (call >> call >> call) _
      (bind-Quiet (call >> call) _ (bind-Quiet call _ call-Quiet (λ _. call-Quiet))
        (λ _. call-Quiet))
      (λ _. call-Quiet)

record_rows-done :
    (project_id size : ℕ) (oid : Str) (w v : World)
    → record_rows project_id oid size w ≡ (done tt, v)
    → (v.db ≡ link_object project_id oid (insert_object oid (pos size) w.db))
      × (v.lfs_files ≡ w.lfs_files)
record_rows-done project_id size oid w v h =
    let rows : Db = link_object project_id oid (insert_object oid (pos size) w.db) in
    let (_, x, a, b) = bind-eq-done four_calls (λ _ x. (done tt, record x { db = rows })) w h in
    let (_, files) = after-Quiet four_calls four_calls-Quiet w x tt a in (cc, cc)

rename_part-done :
    (oid : Str) (bytes : List ℕ) (w v : World)
    → rename_part oid bytes w ≡ (done tt, v)
    → (v.db ≡ w.db) × (v.lfs_files ≡ put_file oid bytes w.lfs_files)
rename_part-done oid bytes w v h = ground arith

within : (max n : ℕ) → (1 ≤ max → n ≤ max) → ltb 0 max && ltb max n ≡ false
within zero n h = ground arith
within (suc max) n h = let k = h (omega arith) in ground arith

module _ (sha256_hex : List ℕ → Str) where
  -- An upload that succeeds has received bytes that hash to the name and keep the size limit, if
  -- there is one; they are the object's bytes now, and the tables have its row and the project's link.
  pub store_streaming-done :
      (max project_id : ℕ) (oid : Str) (chunks : List (List ℕ)) (w v : World)
      → store_streaming sha256_hex max project_id oid chunks w ≡ (done tt, v)
      → (sha256_hex (concat chunks) ≡ oid)
        × (ltb 0 max && ltb max (length (concat chunks)) ≡ false)
        × (v.lfs_files ≡ put_file oid (concat chunks) w.lfs_files)
        × (v.db
            ≡ link_object project_id oid (insert_object oid (pos (length (concat chunks))) w.db))
  unfolding store_streaming
  store_streaming-done max project_id oid chunks w v h =
      let (bytes, x, a, b) =
        bind-eq-done (call >> call >> receive max 0 [] chunks) (finish sha256_hex project_id oid) w
          h in
      let (_, x0, _, a1) = bind-eq-done (call >> call) (λ _. receive max 0 [] chunks) w a in
      let (e, bound) = receive-done max [] chunks x0 x bytes a1 (λ p. omega arith) in
      let (d1, f1) =
        after-Quiet (call >> call >> receive max 0 [] chunks) (received-Quiet sha256_hex max chunks)
          w x bytes a in
      let (_, z, c, r) =
        bind-eq-done (prepared sha256_hex oid bytes >> rename_part oid bytes)
          (λ _. record_rows project_id oid (length bytes)) x b in
      let (_, y, p, q) =
        bind-eq-done (prepared sha256_hex oid bytes) (λ _. rename_part oid bytes) x c in
      let (d2, f2) =
        after-Quiet (prepared sha256_hex oid bytes) (prepared-Quiet sha256_hex oid bytes) x y tt
          p in
      let digest = prepared-digest sha256_hex oid bytes x y p in
      let (d3, f3) = rename_part-done oid bytes y z q in
      let (d4, f4) = record_rows-done project_id (length bytes) oid z v r in
      let d : z.db ≡ w.db = d3 ∙ (d2 ∙ d1) in
      let f : y.lfs_files ≡ w.lfs_files = f2 ∙ f1 in
      (
        rw (← e) digest,
        rw (← e) (within max (length bytes) bound),
        rw (← e) (rw (← f) (f4 ∙ f3)),
        rw (← e) (rw (← d) d4),
      )

find-is_some :
    (p : LfsObject → Bool) (rows : List LfsObject)
    → any p rows ≡ true
    → is_some (find p rows) ≡ true
find-is_some p [] h = cc
find-is_some p (r ∷ rows) h = ground (arith, find-is_some p rows)

size-is_some : (o : Option LfsObject) → is_some o ≡ true → is_some (size_of o) ≡ true
size-is_some none h = cc
size-is_some (some o) h = refl

insert_object-any :
    (oid : Str) (size : ℤ) (d : Db)
    → any (is_object oid) (insert_object oid size d).lfs_objects ≡ true
insert_object-any oid size d = elim (Bool-cases (any (is_object oid) d.lfs_objects)) [
  | inl t ↦ rw t t
  | inr f ↦ rw f (rw (str_eq_refl oid) refl)
]

link-linked :
    (project_id : ℕ) (d : Db) (o : LfsObject)
    → (is_linked project_id (link project_id o.id d) o ≡ true)
      × ((link project_id o.id d).lfs_objects ≡ d.lfs_objects)
link-linked project_id d o = (ground arith, ground arith)

link_object-any :
    (project_id : ℕ) (oid : Str) (d : Db)
    → any (is_object oid) d.lfs_objects ≡ true
    → let d' = link_object project_id oid d in
      any (λ o. is_object oid o && is_linked project_id d' o) d'.lfs_objects ≡ true
link_object-any project_id oid d h = elim (Option-cases (find (is_object oid) d.lfs_objects)) [
  | inl e ↦ absurd (ground (arith, find-is_some (is_object oid) d.lfs_objects h))
  | inr (o, e) ↦
      let (mem, is) = find-Mem (is_object oid) d.lfs_objects o e in
      let (linked, rows) = link-linked project_id d o in
      rw e (
        rw rows (
          any-of_Mem (λ q. is_object oid q && is_linked project_id (link project_id o.id d) q)
            d.lfs_objects o mem (rw is linked)))
]

-- After the rows of an upload are written, the object is found under the project, with the size of the
-- row of that name.
pub link_object-linked_size :
    (project_id : ℕ) (oid : Str) (size : ℤ) (d : Db)
    → is_some (linked_size project_id oid (link_object project_id oid (insert_object oid size d)))
      ≡ true
link_object-linked_size project_id oid size d =
    let d' : Db = link_object project_id oid (insert_object oid size d) in
    let a =
      link_object-any project_id oid (insert_object oid size d) (insert_object-any oid size d) in
    size-is_some (find (λ o. is_object oid o && is_linked project_id d' o) d'.lfs_objects)
      (find-is_some _ d'.lfs_objects a)
