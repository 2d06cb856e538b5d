-- ===== src/Persistence/Deletion.antt =====
-- The shredding of a file on which no call fails, and what it does to the other files.
use Prim.Native.Nat.{min}
use astarte_device_sdk_cpp.Base.{
  ℕ, zero, suc, ◌+◌, ◌-◌, ◌*◌, ◌/◌, ◌≤◌, ◌≡◌, refl, ◌∙◌, inl, inr, Bool, true, false, not, ltb,
  ltb→lt, ◌==◌, ==_iff, Option, Option-cases, none, some, Text, text_eq, length, if◌then◌else◌,
  Result, ok, err, Error, arith,
}
use astarte_device_sdk_cpp.Persistence.{
  FileSystem, Files, put, chunk_size, buf_size, zero_range, write_zeros, overwrite_file_zeros,
  flush_and_remove, after_zeros, shred_content, secure_shred_file,
}
use astarte_device_sdk_cpp.Persistence.Shredding.{chunk_size-le, chunk_size-cases}
use astarte_device_sdk_cpp.Persistence.Removal.{
  Shredded, gone, missing, kept, put-elsewhere, secure_shred_file-Shredded,
}

-- No call on the path fails, and `fwrite` writes all that it is asked for.
pub record Obeys (fs : FileSystem) (path : Text) : Type 0 where
  pub opens : fs.opens_to_update path ≡ true
  pub seeks : fs.seeks_end path ≡ true
  pub tells : fs.tells path ≡ true
  pub rewinds : fs.rewinds path ≡ true
  pub writes : (offset count : ℕ) → count ≤ fs.fwrite path offset count
  pub flushes : fs.flushes path ≡ true
  pub syncs : fs.syncs path ≡ true
  pub closes : fs.closes path ≡ true
  pub removes : fs.removes path ≡ true

round_ok :
    (more full : Bool) (content content' : Text) (rest : Text × Result (Unit {0}))
    → full ≡ true
    → (more ≡ true → rest.1 ≡ ok (tt {0}))
    → (if not more
        then (content, ok tt)
        else if not full
        then (content', err Error.write_credential_error)
        else rest).1
      ≡ ok (tt {0})
round_ok false full content content' rest f next = refl
round_ok true false content content' rest f next = absurd cc
round_ok true true content content' rest f next = next refl

module _ (fs : FileSystem) (path : Text) where
  write_zeros-eq-ok :
      (size fuel written : ℕ) (content : Text)
      → Obeys fs path
      → size - written + buf_size ≤ fuel * buf_size
      → (write_zeros fs fuel path size written content).1 ≡ ok (tt {0})
  unfolding write_zeros
  write_zeros-eq-ok size zero written content o k = absurd (omega arith)
  write_zeros-eq-ok size (suc fuel) written content o k =
      let to_write = chunk_size (size - written) in
      let count = min (fs.fwrite path written to_write) to_write in
      let content' = zero_range written count content in
      let enough = o.writes written to_write in
      let whole : count ≡ to_write = omega arith in
      let fits = chunk_size-le (size - written) in
      round_ok (ltb written size) (count == to_write) content content'
        (write_zeros fs fuel path size (written + count) content') ((==_iff count to_write).1 whole)
        (λ e.
          let m = ltb→lt written size e in
          write_zeros-eq-ok size fuel (written + count) content' o
            (elim (chunk_size-cases (size - written)) [
              | inl all ↦ omega arith
              | inr block ↦ omega arith
            ]))

  overwrite-eq-ok :
      (content : Text)
      → Obeys fs path
      → (overwrite_file_zeros fs path (length content) content).1 ≡ ok (tt {0})
  unfolding overwrite_file_zeros
  overwrite-eq-ok content o =
      let e = o.rewinds in
      rw e (
        write_zeros-eq-ok (length content) (length content / buf_size + 2) 0 content o
          (omega arith))

  flush_and_remove-eq-ok :
      (files : Files) → Obeys fs path → (flush_and_remove fs path files).1 ≡ ok (tt {0})
  unfolding flush_and_remove
  flush_and_remove-eq-ok files o =
      let f = o.flushes in
      let s = o.syncs in let c = o.closes in let r = o.removes in rw (f, s, c, r) refl

  after_zeros-eq-ok :
      (files : Files) (result : Text × Result (Unit {0}))
      → Obeys fs path
      → result.1 ≡ ok (tt {0})
      → (after_zeros fs path files result).1 ≡ ok (tt {0})
  after_zeros-eq-ok files (content, err e) o h = cc
  after_zeros-eq-ok files (content, ok _) o h =
      flush_and_remove-eq-ok (put path (some content) files) o

  -- A file that is there is shredded.
  pub secure_shred_file-eq-ok :
      (files : Files) (content : Text)
      → Obeys fs path
      → files path ≡ some content
      → (secure_shred_file fs path files).1 ≡ ok (tt {0})
  unfolding secure_shred_file
  secure_shred_file-eq-ok files content o h =
      let p = o.opens in
      let s = o.seeks in
      let t = o.tells in
      rw (h, p, s, t)
        (after_zeros-eq-ok files (overwrite_file_zeros fs path (length content) content) o
          (overwrite-eq-ok content o))

  gone_of_success :
      (files files' : Files) (outcome : Result (Unit {0}))
      → Shredded path files files' outcome
      → outcome ≡ ok tt
      → files' path ≡ none
  gone_of_success files files' _ (gone e) h = e
  gone_of_success files files' _ (missing e e') h = e'
  gone_of_success files files' _ (kept content content' e e' l) h = absurd cc

  gone_if_missing :
      (files files' : Files) (outcome : Result (Unit {0}))
      → Shredded path files files' outcome
      → files path ≡ none
      → files' path ≡ none
  gone_if_missing files files' _ (gone e) h = e
  gone_if_missing files files' _ (missing e e') h = e'
  gone_if_missing files files' _ (kept content content' e e' l) h = absurd cc

  -- Whether it was there or not, there is no file at the path any more.
  pub secure_shred_file-gone :
      (files : Files) → Obeys fs path → (secure_shred_file fs path files).0 path ≡ none
  secure_shred_file-gone files o = elim (Option-cases (files path)) [
    | inl e ↦ gone_if_missing files _ _ (secure_shred_file-Shredded fs path files) e
    | inr (content, e) ↦
        gone_of_success files _ _ (secure_shred_file-Shredded fs path files)
          (secure_shred_file-eq-ok files content o e)
  ]

  module _ (other : Text) (apart : text_eq other path ≡ false) where
    flush_and_remove-elsewhere :
        (files : Files) → (flush_and_remove fs path files).0 other ≡ files other
    unfolding flush_and_remove
    flush_and_remove-elsewhere files = ground (arith, put-elsewhere path other none files apart)

    after_zeros-elsewhere :
        (files : Files) (result : Text × Result (Unit {0}))
        → (after_zeros fs path files result).0 other ≡ files other
    after_zeros-elsewhere files (content, err e) =
        put-elsewhere path other (some content) files apart
    after_zeros-elsewhere files (content, ok _) =
        flush_and_remove-elsewhere (put path (some content) files)
        ∙ put-elsewhere path other (some content) files apart

    shred_content-elsewhere :
        (files : Files) (content : Option Text)
        → (shred_content fs path files content).0 other ≡ files other
    shred_content-elsewhere files none = refl
    shred_content-elsewhere files (some content) =
        ground (
          arith,
          after_zeros-elsewhere files (overwrite_file_zeros fs path (length content) content),
        )

    -- The other files stay as they are.
    pub secure_shred_file-elsewhere :
        (files : Files) → (secure_shred_file fs path files).0 other ≡ files other
    unfolding secure_shred_file
    secure_shred_file-elsewhere files = shred_content-elsewhere files (files path)
