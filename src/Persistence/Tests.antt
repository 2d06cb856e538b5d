-- ===== src/Persistence/Tests.antt =====
-- A file system on which every call succeeds, and one that writes a single byte at a time.
use astarte_device_sdk_cpp.Base.{
  ◌≡◌, refl, true, none, some, ◌∷◌, codes, length, ok, err, Error, text_eq,
}
use astarte_device_sdk_cpp.Persistence.{
  FileSystem, Files, put, zeros, chunk_size, write_zeros, flush_and_remove, overwrite_file_zeros,
  secure_shred_file,
}
use astarte_device_sdk_cpp.Persistence.Shredding.{Overwritten, overwrite_file_zeros-Overwritten}
use astarte_device_sdk_cpp.Persistence.Removal.{Shredded, secure_shred_file-Shredded}

abbrev pub reliable : FileSystem
reliable = record {
  opens_to_read = λ path. true;
  opens_to_write = λ path. true;
  stream_out = λ path data'. length data';
  opens_to_update = λ path. true;
  seeks_end = λ path. true;
  tells = λ path. true;
  rewinds = λ path. true;
  fwrite = λ path offset count. count;
  flushes = λ path. true;
  syncs = λ path. true;
  closes = λ path. true;
  removes = λ path. true;
}

abbrev slow : FileSystem
slow = record reliable { fwrite = λ path offset count. 1 }

abbrev one_file : Files
one_file = put (codes "k") (some (codes "key")) (λ path. none)

shredded : (secure_shred_file reliable (codes "k") one_file).1 ≡ ok tt
unfolding secure_shred_file overwrite_file_zeros write_zeros chunk_size zeros flush_and_remove put
    text_eq
shredded = refl

-- The first of the three bytes is overwritten.
overwritten_slowly :
    overwrite_file_zeros slow (codes "k") 3 (codes "key")
    ≡ (0 ∷ codes "ey", err Error.write_credential_error)
unfolding overwrite_file_zeros write_zeros chunk_size zeros
overwritten_slowly = refl

overwrite_file_zeros-Overwritten_example :
    Overwritten 3 (overwrite_file_zeros slow (codes "k") 3 (codes "key"))
overwrite_file_zeros-Overwritten_example =
    overwrite_file_zeros-Overwritten slow (codes "k") (codes "key")

secure_shred_file-Shredded_example :
    Shredded
      (codes "k")
      one_file
      (secure_shred_file slow (codes "k") one_file).0
      (secure_shred_file slow (codes "k") one_file).1
secure_shred_file-Shredded_example = secure_shred_file-Shredded slow (codes "k") one_file
