-- ===== src/Persistence.antt =====
-- src/mqtt/persistence.cpp: the files of the credentials. The file system is a parameter as far as
-- its calls succeed or fail; the files are a map from paths to contents, lists of bytes. A call of
-- `fwrite` leaves its zeros in the file however many they are, and opening for writing empties it.
pub mod Shredding
pub mod Removal
pub mod Deletion
pub mod Tests
use Prim.Native.Nat.{min}
use astarte_device_sdk_cpp.Base.{
  ℕ, zero, suc, ◌+◌, ◌-◌, ◌/◌, Bool, true, false, not, ltb, ◌==◌, Option, none, some, List, [], ◌∷◌,
  ◌++◌, Text, text_eq, length, take, drop, if◌then◌else◌, Result, ok, err, Error,
}

-- The content at each path, if there is a file.
abbrev pub Files : Type 0
Files = Text → Option Text

unfoldable pub put : Text → Option Text → Files → Files
put path content files = λ other. if text_eq other path then content else files other

-- Which calls on a path succeed. `fwrite` is asked for a number of bytes at an offset and tells how
-- many it wrote; `stream_out` is how much of the data reaches the file in `operator<<`, which the code
-- does not ask.
pub record FileSystem : Type 0 where
  pub opens_to_read : Text → Bool
  pub opens_to_write : Text → Bool
  pub stream_out : Text → Text → ℕ
  pub opens_to_update : Text → Bool
  pub seeks_end : Text → Bool
  pub tells : Text → Bool
  pub rewinds : Text → Bool
  pub fwrite : Text → ℕ → ℕ → ℕ
  pub flushes : Text → Bool
  pub syncs : Text → Bool
  pub closes : Text → Bool
  pub removes : Text → Bool

abbrev pub buf_size : ℕ
buf_size = 4096

-- A number of zero bytes.
unfoldable pub zeros : ℕ → Text
zeros zero = []
zeros (suc n) = 0 ∷ zeros n

-- The content with zeros in place of `count` bytes at an offset.
abbrev pub zero_range : ℕ → ℕ → Text → Text
zero_range offset count content =
    take offset content ++ zeros count ++ drop (offset + count) content

-- `to_write`, of what remains.
unfoldable pub chunk_size : ℕ → ℕ
chunk_size remaining = if ltb buf_size remaining then buf_size else remaining

module _ (fs : FileSystem) where
  open fs use {
    opens_to_read, opens_to_write, stream_out, opens_to_update, seeks_end, tells, rewinds, fwrite,
    flushes, syncs, closes, removes,
  }

  abbrev pub exists : Text → Files → Bool
  exists file_path files = elim (files file_path) [ none ↦ false | some content ↦ true ]

  unfoldable pub read_from_file : Text → Files → Result Text
  read_from_file file_path files = elim (files file_path) [
    | none ↦ err Error.read_credential_error
    | some content ↦ if opens_to_read file_path then ok content else err Error.read_credential_error
  ]

  unfoldable pub write_to_file : Text → Text → Files → Files × Result (Unit {0})
  write_to_file file_path data' files =
      if not (opens_to_write file_path)
      then (files, err Error.write_credential_error)
      else (put file_path (some (take (stream_out file_path data') data')) files, ok tt)

  -- The loop: what is in the file, and whether all is written.
  unfoldable pub write_zeros : ℕ → Text → ℕ → ℕ → Text → Text × Result (Unit {0})
  write_zeros zero path size written content = (content, err Error.internal_error)
  write_zeros (suc fuel) path size written content =
      let to_write = chunk_size (size - written) in
      let write_count = min (fwrite path written to_write) to_write in
      let content' = zero_range written write_count content in
      let rest = write_zeros fuel path size (written + write_count) content' in
      if not (ltb written size)
      then (content, ok tt)
      else if not (write_count == to_write)
      then (content', err Error.write_credential_error)
      else rest

  unfoldable pub overwrite_file_zeros : Text → ℕ → Text → Text × Result (Unit {0})
  overwrite_file_zeros path size content =
      if not (rewinds path)
      then (content, err Error.write_credential_error)
      else write_zeros (size / buf_size + 2) path size 0 content

  -- After the zeros are written.
  unfoldable pub flush_and_remove : Text → Files → Files × Result (Unit {0})
  flush_and_remove path files =
      if not (flushes path)
      then (files, err Error.write_credential_error)
      else if not (syncs path)
      then (files, err Error.write_credential_error)
      else if not (closes path)
      then (files, err Error.write_credential_error)
      else if not (removes path)
      then (files, err Error.write_credential_error)
      else (put path none files, ok tt)

  abbrev pub after_zeros : Text → Files → Text × Result (Unit {0}) → Files × Result (Unit {0})
  after_zeros path files (content, err e) = (put path (some content) files, err e)
  after_zeros path files (content, ok _) = flush_and_remove path (put path (some content) files)

  abbrev pub shred_content : Text → Files → Option Text → Files × Result (Unit {0})
  shred_content path files none = (files, err Error.write_credential_error)
  shred_content path files (some content) =
      if not (opens_to_update path)
      then (files, err Error.write_credential_error)
      else if not (seeks_end path)
      then (files, err Error.write_credential_error)
      else if not (tells path)
      then (files, err Error.write_credential_error)
      else after_zeros path files (overwrite_file_zeros path (length content) content)

  unfoldable pub secure_shred_file : Text → Files → Files × Result (Unit {0})
  secure_shred_file path files = shred_content path files (files path)
