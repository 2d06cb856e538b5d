-- ===== src/Persistence/Shredding.antt =====
-- What is left in a file, and of it, by its shredding.
use Prim.Native.Nat.{min}
use astarte_device_sdk_cpp.Base.{
  ℕ, zero, suc, ◌+◌, ◌-◌, ◌*◌, ◌/◌, ◌≤◌, ◌≡◌, ◌⊎◌, inl, inr, refl, sym, ap, subst, ◌∙◌, Bool, true,
  false, not, ltb, ltb→lt, ◌==◌, ==_iff, [], ◌∷◌, ◌++◌, Text, length, length-append, take, drop,
  if◌then◌else◌, Result, ok, err, Error, Bool-cases, arith,
}
use mathlib.Core.List.{append-nil}
use astarte_device_sdk_cpp.Persistence.{
  chunk_size, FileSystem, buf_size, zeros, zero_range, write_zeros, overwrite_file_zeros,
}

pub length-zeros : (n : ℕ) → length (zeros n) ≡ n
unfolding zeros
length-zeros zero = refl
length-zeros (suc n) = ap suc (length-zeros n)

take-zeros : (n : ℕ) (s : Text) → take n (zeros n ++ s) ≡ zeros n
unfolding zeros
take-zeros zero s = refl
take-zeros (suc n) s = ap (λ t. 0 ∷ t) (take-zeros n s)

drop-zeros : (n c : ℕ) (s : Text) → drop (n + c) (zeros n ++ s) ≡ drop c s
unfolding zeros
drop-zeros zero c s = ap (λ k. drop k s) (omega arith)
drop-zeros (suc n) c s = ap (λ k. drop k (0 ∷ zeros n ++ s)) (suc_first n c) ∙ drop-zeros n c s
  where
    suc_first : (n c : ℕ) → suc n + c ≡ suc (n + c)
    suc_first n c = omega arith

zeros-append : (n c : ℕ) (s : Text) → zeros n ++ zeros c ++ s ≡ zeros (n + c) ++ s
unfolding zeros
zeros-append zero c s = ap (λ k. zeros k ++ s) (omega arith)
zeros-append (suc n) c s =
    ap (λ t. 0 ∷ t) (zeros-append n c s) ∙ ap (λ k. zeros k ++ s) (suc_first n c)
  where
    suc_first : (n c : ℕ) → suc (n + c) ≡ suc n + c
    suc_first n c = omega arith

length-drop : (n : ℕ) (s : Text) → length (drop n s) ≡ length s - n
length-drop zero s = omega arith
length-drop (suc n) [] = omega arith
length-drop (suc n) (x ∷ s) = omega (arith, length-drop n s)

-- The zeros grow by those of a call.
zero_range-zeros :
    (written count : ℕ) (s : Text)
    → zero_range written count (zeros written ++ s) ≡ zeros (written + count) ++ drop count s
zero_range-zeros written count s =
    ap (λ t. t ++ zeros count ++ drop (written + count) (zeros written ++ s)) (take-zeros written s)
    ∙ ap (λ t. zeros written ++ zeros count ++ t) (drop-zeros written count s)
    ∙ zeros-append written count (drop count s)

-- As long as before, and zeros if it succeeded; a failure is an error of the writing.
abbrev pub Overwritten : ℕ → Text × Result (Unit {0}) → Type 0
Overwritten size (content, outcome) =
    (length content ≡ size)
    × (((outcome ≡ ok tt) × (content ≡ zeros size)) ⊎ (outcome ≡ err Error.write_credential_error))

pub chunk_size-le : (remaining : ℕ) → chunk_size remaining ≤ remaining
unfolding chunk_size
chunk_size-le remaining = ground arith

-- A chunk is the whole rest, or 4096 bytes.
pub chunk_size-cases :
    (remaining : ℕ) → (chunk_size remaining ≡ remaining) ⊎ (chunk_size remaining ≡ buf_size)
unfolding chunk_size
chunk_size-cases remaining = elim (Bool-cases (ltb buf_size remaining)) [
  | inl e ↦ inr (ap (λ b. if b then buf_size else remaining) e)
  | inr e ↦ inl (ap (λ b. if b then buf_size else remaining) e)
]

-- The three ways on from the tests of a round.
round-Overwritten :
    (size : ℕ) (more full : Bool) (content content' : Text) (rest : Text × Result (Unit {0}))
    → (more ≡ false → Overwritten size (content, ok tt))
    → (more ≡ true → length content' ≡ size)
    → (more ≡ true → full ≡ true → Overwritten size rest)
    → Overwritten size (
        if not more
        then (content, ok tt)
        else if not full
        then (content', err Error.write_credential_error)
        else rest)
round-Overwritten size false full content content' rest done failed next = done refl
round-Overwritten size true false content content' rest done failed next = (failed refl, inr refl)
round-Overwritten size true true content content' rest done failed next = next refl refl

module _ (fs : FileSystem) (path : Text) (size : ℕ) where
  -- A part of zeros, and a rest as long as the loop has still to write.
  partly_zeros :
      (written : ℕ) (s : Text) → written + length s ≡ size → length (zeros written ++ s) ≡ size
  partly_zeros written s h = length-append (zeros written) s ∙ omega (arith, length-zeros written)

  all_zeros :
      (written : ℕ) (s : Text)
      → written + length s ≡ size
      → ltb written size ≡ false
      → zeros written ++ s ≡ zeros size
  all_zeros written [] h t = append-nil (zeros written) ∙ ap zeros (omega arith)
  all_zeros written (x ∷ s) h t = ground arith

  write_zeros-Overwritten :
      (fuel written : ℕ) (s : Text)
      → written + length s ≡ size
      → length s + buf_size ≤ fuel * buf_size
      → Overwritten size (write_zeros fs fuel path size written (zeros written ++ s))
  unfolding write_zeros
  write_zeros-Overwritten zero written s h k = absurd (omega arith)
  write_zeros-Overwritten (suc fuel) written s h k =
      let to_write = chunk_size (size - written) in
      let count = min (fs.fwrite path written to_write) to_write in
      let fits = chunk_size-le (size - written) in
      let same = zero_range-zeros written count s in
      let left = length-drop count s in
      round-Overwritten size (ltb written size) (count == to_write) (zeros written ++ s)
        (zero_range written count (zeros written ++ s))
        (write_zeros fs fuel path size (written + count)
          (zero_range written count (zeros written ++ s)))
        (λ e. (partly_zeros written s h, inl (refl, all_zeros written s h e)))
        (λ e. ap length same ∙ partly_zeros (written + count) (drop count s) (omega arith))
        (λ e full.
          subst (λ t. Overwritten size (write_zeros fs fuel path size (written + count) t))
            (sym same)
            (write_zeros-Overwritten fuel (written + count) (drop count s) (omega arith) (
              let c = (==_iff count to_write).0 full in
              let m = ltb→lt written size e in
              elim (chunk_size-cases (size - written)) [
                | inl all ↦ omega arith
                | inr block ↦ omega arith
              ])))

-- The overwriting of a file's content with zeros ends, for whatever the file system does: the content
-- is as long as before, and either the outcome is a success and every byte is zero, or the outcome is
-- an error of the writing.
pub overwrite_file_zeros-Overwritten :
    (fs : FileSystem) (path content : Text)
    → Overwritten (length content) (overwrite_file_zeros fs path (length content) content)
unfolding overwrite_file_zeros
overwrite_file_zeros-Overwritten fs path content = at_rewind (fs.rewinds path)
  where
    at_rewind :
        (b : Bool)
        → Overwritten (length content) (
            if not b
            then (content, err Error.write_credential_error)
            else write_zeros fs (length content / buf_size + 2) path (length content) 0 content)
    at_rewind false = (refl, inr refl)
    at_rewind true =
        unfold zeros in
        write_zeros-Overwritten fs path (length content) (length content / buf_size + 2) 0 content
          (omega arith) (omega arith)
