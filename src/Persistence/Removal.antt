-- ===== src/Persistence/Removal.antt =====
-- What `secure_shred_file` leaves.
use astarte_device_sdk_cpp.Base.{
  ◌≡◌, refl, sym, subst, inl, inr, Bool, true, false, not, Option, none, some, Text, text_eq,
  text_eq_iff, length, if◌then◌else◌, Result, ok, err, Error,
}
use astarte_device_sdk_cpp.Persistence.{
  FileSystem, Files, put, overwrite_file_zeros, secure_shred_file, shred_content, after_zeros,
  flush_and_remove,
}
use astarte_device_sdk_cpp.Persistence.Shredding.{Overwritten, overwrite_file_zeros-Overwritten}

-- The file is gone, there was none, or it is still there with its length.
pub data Shredded (path : Text) (files files' : Files) : Result (Unit {0}) → Type 0 where
  gone : files' path ≡ none → Shredded path files files' (ok tt)
  missing :
      files path ≡ none
      → files' path ≡ none
      → Shredded path files files' (err Error.write_credential_error)
  kept :
      (content content' : Text)
      → files path ≡ some content
      → files' path ≡ some content'
      → length content' ≡ length content
      → Shredded path files files' (err Error.write_credential_error)

pub put-here :
    (path : Text) (content : Option Text) (files : Files) → put path content files path ≡ content
unfolding put
put-here path content files = rw ((text_eq_iff path path).1 refl) refl

pub put-elsewhere :
    (path other : Text) (content : Option Text) (files : Files)
    → text_eq other path ≡ false
    → put path content files other ≡ files other
unfolding put
put-elsewhere path other content files h = rw h refl

module _ (fs : FileSystem) (path : Text) where
  flush_and_remove-Shredded :
      (files files' : Files) (content content' : Text)
      → files path ≡ some content
      → files' path ≡ some content'
      → length content' ≡ length content
      → (let result = flush_and_remove fs path files' in Shredded path files result.0 result.1)
  unfolding flush_and_remove
  flush_and_remove-Shredded files files' content content' e e' l =
      at_tests (fs.flushes path) (fs.syncs path) (fs.closes path) (fs.removes path)
    where
      at_tests :
          (flushed synced closed removed : Bool)
          → (let result : Files × Result (Unit {0}) =
                if not flushed
                then (files', err Error.write_credential_error)
                else if not synced
                then (files', err Error.write_credential_error)
                else if not closed
                then (files', err Error.write_credential_error)
                else if not removed
                then (files', err Error.write_credential_error)
                else (put path none files', ok tt) in
              Shredded path files result.0 result.1)
      at_tests false synced closed removed = kept content content' e e' l
      at_tests true false closed removed = kept content content' e e' l
      at_tests true true false removed = kept content content' e e' l
      at_tests true true true false = kept content content' e e' l
      at_tests true true true true = gone (put-here path none files')

  after_zeros-Shredded :
      (files : Files) (content : Text) (result : Text × Result (Unit {0}))
      → files path ≡ some content
      → Overwritten (length content) result
      → (let after = after_zeros fs path files result in Shredded path files after.0 after.1)
  after_zeros-Shredded files content (content', ok _) e (l, h) =
      flush_and_remove-Shredded files (put path (some content') files) content content' e
        (put-here path (some content') files) l
  after_zeros-Shredded files content (content', err wrong) e (l, inl (h, _)) = absurd cc
  after_zeros-Shredded files content (content', err wrong) e (l, inr h) =
      subst (Shredded path files (put path (some content') files)) (sym h)
        (kept content content' e (put-here path (some content') files) l)

  shred_content-Shredded :
      (files : Files) (opt : Option Text)
      → files path ≡ opt
      → (let result = shred_content fs path files opt in Shredded path files result.0 result.1)
  shred_content-Shredded files none e = missing e e
  shred_content-Shredded files (some content) e =
      at_tests (fs.opens_to_update path) (fs.seeks_end path) (fs.tells path)
    where
      at_tests :
          (opened sought told : Bool)
          → (let result : Files × Result (Unit {0}) =
                if not opened
                then (files, err Error.write_credential_error)
                else if not sought
                then (files, err Error.write_credential_error)
                else if not told
                then (files, err Error.write_credential_error)
                else after_zeros fs path files
                    (overwrite_file_zeros fs path (length content) content) in
              Shredded path files result.0 result.1)
      at_tests false sought told = kept content content e e refl
      at_tests true false told = kept content content e e refl
      at_tests true true false = kept content content e e refl
      at_tests true true true =
          after_zeros-Shredded files content (overwrite_file_zeros fs path (length content) content)
            e (overwrite_file_zeros-Overwritten fs path content)

  -- `secure_shred_file` keeps no file by a success and loses none by an error: if it succeeds, there
  -- is no file at the path any more; otherwise there was none, or it is still there with its old
  -- length, whichever call on the file has failed.
  pub secure_shred_file-Shredded :
      (files : Files)
      → Shredded path files (secure_shred_file fs path files).0 (secure_shred_file fs path files).1
  unfolding secure_shred_file
  secure_shred_file-Shredded files = shred_content-Shredded files (files path) refl
