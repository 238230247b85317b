-- ===== src/ObjectOps/Runs.antt =====
-- Requests that follow one another: puts, deletes, and the emptying of a bucket.
use fbs_core.Base.{ℕ, Bool, false, Bytes, List, Option, some, Result, ok, ◌≡◌}
use fbs_core.Metadata.Model.{Object}
use fbs_core.ObjectOps.{Failure, World, delete_object, empty_bucket}
use fbs_core.ObjectOps.Put.{PutRequest, Told, put_object}
use fbs_core.ObjectOps.Backed.{has_file}
use fbs_core.ObjectOps.Sound.{IsSound, delete_object-IsSound, empty_bucket-IsSound}
use fbs_core.ObjectOps.PutSound.{put_object-IsSound}

-- Write makes a new file.
abbrev pub IsFresh : World → Told → Type 0
IsFresh w told =
    (path : Bytes) (size : ℕ) → told.written ≡ ok (path, size) → has_file path w.files ≡ false

-- One request, and the paths that the disk fails to delete while it runs; a deletion may have no disk.
pub data Step : World → World → Type 0 where
  put :
      (fails : Bytes → Bool) (w : World) (r : PutRequest) (told : Told)
      → IsFresh w told
      → Step w (put_object fails w r told).0
  remove :
      (engine : Option (Bytes → Bool)) (w : World) (bucket_name key : Bytes)
      → Step w (delete_object engine w bucket_name key).0
  empty :
      (engine : Option (Bytes → Bool)) (w after : World) (bucket_name : Bytes)
      (answer : Result Failure (List Object))
      → empty_bucket engine w bucket_name ≡ some (after, answer)
      → Step w after

pub data Run : World → World → Type 0 where
  done : (w : World) → Run w w
  then : (v w x : World) → Run v w → Step w x → Run v x

Step-IsSound : (v w : World) → Step v w → IsSound v → IsSound w
Step-IsSound v w (put fails u r told fresh) sound = put_object-IsSound fails u r told sound fresh
Step-IsSound v w (remove engine u b k) sound = delete_object-IsSound engine u b k sound
Step-IsSound v w (empty engine u after b answer h) sound =
    let (x, y, same, kept, _) = empty_bucket-IsSound engine u b sound in
    let here : after ≡ x = cc (h, same) in rw here kept

-- However puts, deletes and the emptying of buckets follow one another, and whatever files the disk
-- fails to delete: if every object has its file, no two the same one, and the keys are unique, then
-- this still holds afterwards. Each put writes a file that was not there.
pub Run-IsSound : (v w : World) → Run v w → IsSound v → IsSound w
Run-IsSound v w (done _) sound = sound
Run-IsSound v w (then _ u _ run step) sound = Step-IsSound u w step (Run-IsSound v u run sound)
