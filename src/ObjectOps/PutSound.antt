-- ===== src/ObjectOps/PutSound.antt =====
-- A put leaves every object its file.
use mathlib.Core.Path.{subst}
use fbs_core.Base.{
  ℕ, Bool, true, false, not, ◌&&◌, Bytes, List, [], ◌∷◌, none, some, codes, str_eq, str_eq_refl,
  str_eq_iff, All, if◌then◌else◌, Result, ok, err, ◌≡◌, refl, arith, Bool-cases, Option-cases, inl,
  inr,
}
use fbs_core.Metadata.Model.{Time, Object, Tables}
use fbs_core.Metadata.Objects.{
  is_at, find_object, upsert_row, upsert_object, replace, load_object_version, version_of,
  with_times, check_write_preconditions,
}
use fbs_core.Metadata.Objects.Unique.{upsert_object-IsUnique}
use fbs_core.Auth.SigV4.Request.{values_get}
use fbs_core.ObjectOps.{World}
use fbs_core.ObjectOps.Put.{
  PutRequest, Told, DigestError, WriteError, new_object, discard, after_replace, after_write,
  after_pipeline, put_object,
}
use fbs_core.ObjectOps.Backed.{
  has_file, OtherFile, DistinctFiles, Backed, Backed-remove_file, Backed-fresh, Backed-cons,
  upsert_row-All, find_object-All,
}
use fbs_core.ObjectOps.Sound.{IsSound}

upsert_row-DistinctFiles :
    (o : Object) (l : List Object)
    → All (OtherFile o.storage_path) l
    → DistinctFiles l
    → DistinctFiles (upsert_row o l)
unfolding upsert_row
upsert_row-DistinctFiles o [] new d = (tt, tt)
upsert_row-DistinctFiles o (x ∷ l) (differs, new) (here, d) =
    elim (Bool-cases (is_at o.bucket_name o.key x)) [
      | inl e ↦ rw e (new, d)
      | inr e ↦
          let other : str_eq o.storage_path x.storage_path ≡ false = ground (
            arith,
            differs,
            str_eq_iff o.storage_path x.storage_path,
            str_eq_iff x.storage_path o.storage_path,
          ) in
          rw e (
            upsert_row-All (OtherFile x.storage_path) o l other here,
            upsert_row-DistinctFiles o l new d,
          )
    ]

-- After the row is written, none has the file of the row that was replaced.
upsert_row-OtherFile :
    (o old : Object) (l : List Object)
    → find_object o.bucket_name o.key l ≡ some old
    → DistinctFiles l
    → str_eq o.storage_path old.storage_path ≡ false
    → All (OtherFile old.storage_path) (upsert_row o l)
unfolding find_object upsert_row
upsert_row-OtherFile o old [] f d n = cc
upsert_row-OtherFile o old (x ∷ l) f (here, d) n = elim (Bool-cases (is_at o.bucket_name o.key x)) [
  | inl e ↦
      let same : x ≡ old = ground (arith, e, f) in
      rw e (n, subst (λ (y : Object). All (OtherFile y.storage_path) l) same here)
  | inr e ↦
      let later : find_object o.bucket_name o.key l ≡ some old = ground (arith, e, f) in
      let other = find_object-All (OtherFile x.storage_path) o.bucket_name o.key l old later here in
      rw e (
        ground (
          arith,
          other,
          str_eq_iff old.storage_path x.storage_path,
          str_eq_iff x.storage_path old.storage_path,
        ),
        upsert_row-OtherFile o old l later d n,
      )
]

module _ (fails : Bytes → Bool) where
  discard-Backed :
      (path : Bytes) (files : List Bytes) (l : List Object)
      → Backed files l
      → All (OtherFile path) l
      → Backed (discard fails path files) l
  discard-Backed path files l b d = elim (Bool-cases (fails path)) [
    | inl e ↦ rw e b
    | inr e ↦ rw e (Backed-remove_file path files l b d)
  ]

  -- The row that is written, by its place in the table.
  module _ (w : World) (path : Bytes) (o : Object) (now : Time) (m n : Bytes) (sound : IsSound w)
      (fresh : All (OtherFile path) w.tables.objects) (held : has_file path w.files ≡ true)
      (own : o.storage_path ≡ path) where
    abbrev row : Object
    row = with_times now o

    abbrev written : Tables
    written = upsert_object w.tables now o

    new_files : All (OtherFile o.storage_path) w.tables.objects
    new_files = rw own fresh

    written-IsSound : IsSound (record w { tables = written })
    unfolding upsert_object
    written-IsSound = (
      upsert_row-All (λ x. has_file x.storage_path w.files ≡ true) row w.tables.objects
          (rw own held) sound.0,
      upsert_row-DistinctFiles row w.tables.objects new_files sound.1,
      unfold upsert_object in upsert_object-IsUnique w.tables now o sound.2,
    )

    abbrev replaced : Bytes → World
    replaced old_path = record {
      tables = written;
      files =
          if not (str_eq old_path []) && not (str_eq old_path path)
          then discard fails old_path w.files
          else w.files;
    }

    replaced-nothing : IsSound (replaced [])
    unfolding str_eq
    replaced-nothing = written-IsSound

    replaced-old :
        (old : Object)
        → find_object o.bucket_name o.key w.tables.objects ≡ some old
        → IsSound (replaced old.storage_path)
    replaced-old old found =
        elim (Bool-cases (not (str_eq old.storage_path []) && not (str_eq old.storage_path path))) [
          | inr e ↦ rw e written-IsSound
          | inl e ↦
              let other : str_eq o.storage_path old.storage_path ≡ false = rw own (
                ground
                  (arith, e, str_eq_iff path old.storage_path, str_eq_iff old.storage_path path)) in
              let (backed, distinct, unique) = written-IsSound in
              let others : All (OtherFile old.storage_path) written.objects =
                unfold upsert_object in
                upsert_row-OtherFile row old w.tables.objects found sound.1 other in
              rw e (
                discard-Backed old.storage_path w.files written.objects backed others,
                distinct,
                unique,
              )
        ]

    after_replace-IsSound : IsSound (after_replace fails w path o (replace w.tables now o m n)).0
    unfolding replace load_object_version
    after_replace-IsSound = elim (Option-cases (find_object o.bucket_name o.key w.tables.objects)) [
      | inl none_yet ↦ elim (Option-cases (check_write_preconditions (version_of none) m n)) [
        | inl e ↦ rw (none_yet, e) replaced-nothing
        | inr (x, e) ↦
            rw (none_yet, e)
              (discard-Backed path w.files w.tables.objects sound.0 fresh, sound.1, sound.2)
      ]
      | inr (old, found) ↦
          elim (Option-cases (check_write_preconditions (version_of (some old)) m n)) [
            | inl e ↦ rw (found, e) (replaced-old old found)
            | inr (x, e) ↦
                rw (found, e)
                  (discard-Backed path w.files w.tables.objects sound.0 fresh, sound.1, sound.2)
          ]
    ]

  module _ (w : World) (r : PutRequest) (told : Told) (sound : IsSound w) where
    after_write-IsSound :
        (result : Result WriteError (Bytes × ℕ))
        → ((path : Bytes) (size : ℕ) → result ≡ ok (path, size) → has_file path w.files ≡ false)
        → IsSound (after_write fails w r told result).0
    after_write-IsSound (err e) fresh = sound
    after_write-IsSound (ok (path, size)) fresh =
        let held = record w { files = path ∷ w.files } in
        let o = new_object r told path size in
        let new = Backed-fresh path w.files w.tables.objects (fresh path size refl) sound.0 in
        let backed = Backed-cons path w.files w.tables.objects sound.0 in
        let present : has_file path (path ∷ w.files) ≡ true = ground (arith, str_eq_refl path) in
        elim (Bool-cases told.body_valid) [
          | inl e ↦ rw e (
              after_replace-IsSound held path o told.now (values_get (codes "If-Match") r.headers)
                (values_get (codes "If-None-Match") r.headers) (backed, sound.1, sound.2) new
                present refl)
          | inr e ↦
              rw e
                (discard-Backed path (path ∷ w.files) w.tables.objects backed new, sound.1, sound.2)
        ]

    after_pipeline-IsSound :
        (start : Result DigestError Unit)
        → ((path : Bytes) (size : ℕ)
            → told.written ≡ ok (path, size)
            → has_file path w.files ≡ false)
        → IsSound (after_pipeline fails w r told start).0
    after_pipeline-IsSound (err e) fresh = sound
    after_pipeline-IsSound (ok _) fresh = after_write-IsSound told.written fresh

  -- A put of a path that has no file yet leaves every row its file, no two rows the same file, and
  -- the keys unique, however it ends.
  pub put_object-IsSound :
      (w : World) (r : PutRequest) (told : Told)
      → IsSound w
      → ((path : Bytes) (size : ℕ) → told.written ≡ ok (path, size) → has_file path w.files ≡ false)
      → IsSound (put_object fails w r told).0
  unfolding put_object
  put_object-IsSound w r told sound fresh = elim (Bool-cases (str_eq r.key [])) [
    | inl e ↦ rw e sound
    | inr e ↦ elim (Bool-cases told.allowed) [
      | inl a ↦ rw (e, a) (after_pipeline-IsSound w r told sound told.pipeline fresh)
      | inr a ↦ rw (e, a) sound
    ]
  ]
