-- ===== src/ObjectOps/Backed.antt =====
-- Every object has its file, and no two objects share one.
use fbs_core.Base.{
  Bool, true, false, ◌||◌, Bytes, List, [], ◌∷◌, some, str_eq, str_eq_iff, All, ◌≡◌, refl, arith,
  Bool-cases, inl, inr,
}
use fbs_core.Metadata.Model.{Object}
use fbs_core.Metadata.Objects.{is_at, find_object, delete_rows, delete_bucket_rows, upsert_row}
use fbs_core.ObjectOps.{remove_file}

abbrev pub has_file : Bytes → List Bytes → Bool
has_file path [] = false
has_file path (f ∷ files) = str_eq f path || has_file path files

-- The file of an object is another than this one.
abbrev pub OtherFile : Bytes → Object → Type 0
OtherFile path o = str_eq o.storage_path path ≡ false

abbrev pub DistinctFiles : List Object → Type 0
DistinctFiles [] = Unit
DistinctFiles (o ∷ rest) = All (OtherFile o.storage_path) rest × DistinctFiles rest

abbrev pub Backed : List Bytes → List Object → Type 0
Backed files l = All (λ o. has_file o.storage_path files ≡ true) l

pub has_file-remove_file :
    (p q : Bytes) (files : List Bytes)
    → str_eq p q ≡ false
    → has_file p (remove_file q files) ≡ has_file p files
has_file-remove_file p q [] h = refl
has_file-remove_file p q (f ∷ files) h =
    ground
      (arith, h, has_file-remove_file p q files h, str_eq_iff f p, str_eq_iff f q, str_eq_iff p q)

pub Backed-remove_file :
    (path : Bytes) (files : List Bytes) (l : List Object)
    → Backed files l
    → All (OtherFile path) l
    → Backed (remove_file path files) l
Backed-remove_file path files [] b d = tt
Backed-remove_file path files (o ∷ l) (here, b) (differs, d) = (
  rw (has_file-remove_file o.storage_path path files differs) here,
  Backed-remove_file path files l b d,
)

-- A file that is new is none of theirs.
pub Backed-fresh :
    (path : Bytes) (files : List Bytes) (l : List Object)
    → has_file path files ≡ false
    → Backed files l
    → All (OtherFile path) l
Backed-fresh path files [] fresh b = tt
Backed-fresh path files (o ∷ l) fresh (here, b) =
    (ground (arith, fresh, here, str_eq_iff o.storage_path path), Backed-fresh path files l fresh b)

pub Backed-cons :
    (path : Bytes) (files : List Bytes) (l : List Object) → Backed files l → Backed (path ∷ files) l
Backed-cons path files [] b = tt
Backed-cons path files (o ∷ l) (here, b) = (ground (arith, here), Backed-cons path files l b)

-- The rows that a deletion keeps are rows that were there.
module _ {κ} (P : Object → Type κ) where
  pub delete_rows-All : (b k : Bytes) (l : List Object) → All P l → All P (delete_rows b k l)
  unfolding delete_rows
  delete_rows-All b k [] h = tt
  delete_rows-All b k (x ∷ l) (here, h) = elim (Bool-cases (is_at b k x)) [
    | inl e ↦ rw e (delete_rows-All b k l h)
    | inr e ↦ rw e (here, delete_rows-All b k l h)
  ]

  pub delete_bucket_rows-All :
      (b : Bytes) (l : List Object) → All P l → All P (delete_bucket_rows b l)
  unfolding delete_bucket_rows
  delete_bucket_rows-All b [] h = tt
  delete_bucket_rows-All b (x ∷ l) (here, h) = elim (Bool-cases (str_eq x.bucket_name b)) [
    | inl e ↦ rw e (delete_bucket_rows-All b l h)
    | inr e ↦ rw e (here, delete_bucket_rows-All b l h)
  ]

  pub upsert_row-All : (o : Object) (l : List Object) → P o → All P l → All P (upsert_row o l)
  unfolding upsert_row
  upsert_row-All o [] new h = (new, tt)
  upsert_row-All o (x ∷ l) new (here, h) = elim (Bool-cases (is_at o.bucket_name o.key x)) [
    | inl e ↦ rw e (new, h)
    | inr e ↦ rw e (here, upsert_row-All o l new h)
  ]

  pub find_object-All :
      (b k : Bytes) (l : List Object) (o : Object) → find_object b k l ≡ some o → All P l → P o
  unfolding find_object
  find_object-All b k [] o f h = cc
  find_object-All b k (x ∷ l) o f (here, h) = elim (Bool-cases (is_at b k x)) [
    | inl e ↦ let same : x ≡ o = ground (arith, e, f) in rw (← same) here
    | inr e ↦ find_object-All b k l o (ground (arith, e, f)) h
  ]

pub delete_rows-DistinctFiles :
    (b k : Bytes) (l : List Object) → DistinctFiles l → DistinctFiles (delete_rows b k l)
unfolding delete_rows
delete_rows-DistinctFiles b k [] d = tt
delete_rows-DistinctFiles b k (x ∷ l) (here, d) = elim (Bool-cases (is_at b k x)) [
  | inl e ↦ rw e (delete_rows-DistinctFiles b k l d)
  | inr e ↦
      rw e
        (delete_rows-All (OtherFile x.storage_path) b k l here, delete_rows-DistinctFiles b k l d)
]

pub delete_bucket_rows-DistinctFiles :
    (b : Bytes) (l : List Object) → DistinctFiles l → DistinctFiles (delete_bucket_rows b l)
unfolding delete_bucket_rows
delete_bucket_rows-DistinctFiles b [] d = tt
delete_bucket_rows-DistinctFiles b (x ∷ l) (here, d) = elim (Bool-cases (str_eq x.bucket_name b)) [
  | inl e ↦ rw e (delete_bucket_rows-DistinctFiles b l d)
  | inr e ↦ rw e (
    delete_bucket_rows-All (OtherFile x.storage_path) b l here,
    delete_bucket_rows-DistinctFiles b l d,
  )
]

-- The rows that are kept do not have the file of the row that is deleted.
pub delete_rows-OtherFile :
    (b k : Bytes) (l : List Object) (o : Object)
    → find_object b k l ≡ some o
    → DistinctFiles l
    → All (OtherFile o.storage_path) (delete_rows b k l)
unfolding find_object delete_rows
delete_rows-OtherFile b k [] o f d = tt
delete_rows-OtherFile b k (x ∷ l) o f (here, d) = elim (Bool-cases (is_at b k x)) [
  | inl e ↦
      let same : x ≡ o = ground (arith, e, f) in
      rw (e, ← same) (delete_rows-All (OtherFile x.storage_path) b k l here)
  | inr e ↦
      let later : find_object b k l ≡ some o = ground (arith, e, f) in
      let other = find_object-All (OtherFile x.storage_path) b k l o later here in
      rw e (
        ground (
          arith,
          other,
          str_eq_iff o.storage_path x.storage_path,
          str_eq_iff x.storage_path o.storage_path,
        ),
        delete_rows-OtherFile b k l o later d,
      )
]
