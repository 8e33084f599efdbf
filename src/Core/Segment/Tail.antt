-- ===== src/Core/Segment/Tail.antt =====
-- The two tails that a segment can end with: space that was preallocated and never written, and a
-- record that a crash cut off.
use skeg.Prelude.{
  ℕ, zero, suc, ◌+◌, ◌-◌, ◌^◌, ◌<◌, ◌≤◌, ◌≡◌, ◌≢◌, refl, ap, ◌∙◌, arith, Bytes, List, [], ◌∷◌, ◌++◌,
  some, take, length, length-append, length-take, replicate, zeros, length-replicate, ltb, le→ltb,
  lt→ltb, ltb→le, ltb→lt, Bool-cases, inl, inr, drop-append_length, append-nil,
}
use skeg.Core.Error.{Error, err, crc_mismatch}
use skeg.Core.Record.{Record, header_size, padded_record_size, decode_record}
use skeg.Core.Segment.{scan_found, header_padded, scan_loop, scan_file}
use skeg.Core.Segment.Replay.{
  IsStorable, AllStorable, padded, positions, encode, segment, Stops, length-encode, padded-pos,
  header_padded-encode, scan_loop-segment,
}

replicate-add {ℓ} :
    {A : Type ℓ} (n m : ℕ) (a : A) → replicate (n + m) a ≡ replicate n a ++ replicate m a
replicate-add zero m a = ap (λ k. replicate k a) (omega arith)
replicate-add (suc n) m a =
    let e : suc n + m ≡ suc (n + m) = omega arith in rw e (ap (λ l. a ∷ l) (replicate-add n m a))

take-take {ℓ} : {A : Type ℓ} (n m : ℕ) (xs : List A) → n ≤ m → take n (take m xs) ≡ take n xs
take-take zero m xs h = refl
take-take (suc n) zero xs h = absurd (omega arith)
take-take (suc n) (suc m) [] h = refl
take-take (suc n) (suc m) (x ∷ xs) h = ap (λ l. x ∷ l) (take-take n m xs (omega arith))

take_all {ℓ} : {A : Type ℓ} (n : ℕ) (xs : List A) → length xs ≤ n → take n xs ≡ xs
take_all zero [] h = refl
take_all zero (x ∷ xs) h = absurd (omega arith)
take_all (suc n) [] h = refl
take_all (suc n) (x ∷ xs) h = ap (λ l. x ∷ l) (take_all n xs (omega arith))

module _ (crc32c : Bytes → ℕ) where
  stop_short :
      (fuel : ℕ) (front tail : Bytes)
      → length tail < header_size
      → scan_loop crc32c (suc fuel) (front ++ tail) (length front) ≡ some ([], length front)
  unfolding scan_loop
  stop_short fuel front tail h = rw (drop-append_length (length front) front tail refl) (
      rw (
        lt→ltb (length (take header_size tail)) header_size
          (omega (arith, length-take header_size tail))))

  stop_torn :
      (fuel : ℕ) (front tail : Bytes)
      → header_size ≤ length tail
      → length tail < header_padded (take header_size tail)
      → scan_loop crc32c (suc fuel) (front ++ tail) (length front) ≡ some ([], length front)
  unfolding scan_loop
  stop_torn fuel front tail h k =
      let p : ℕ = header_padded (take header_size tail) in
      rw (drop-append_length (length front) front tail refl) (
        rw (
          le→ltb (length (take header_size tail)) header_size
              (omega (arith, length-take header_size tail)),
          lt→ltb (length (take p tail)) p (omega (arith, length-take p tail)),
        ))

  -- A proper prefix of a record stops the scan: its header, if whole, asks for more.
  Stops-torn :
      (r : Record) (n : ℕ) → IsStorable r → n < padded r → Stops crc32c (take n (encode crc32c r))
  Stops-torn r n s h fuel front = elim (Bool-cases (ltb n header_size)) [
    | inl short ↦
        stop_short fuel front (take n (encode crc32c r))
          (omega (arith, ltb→lt n header_size short, length-take n (encode crc32c r)))
    | inr long ↦
        let size : header_padded (take header_size (take n (encode crc32c r))) ≡ padded r =
          rw (take-take header_size n (encode crc32c r) (ltb→le n header_size long)) whole in
        stop_torn fuel front (take n (encode crc32c r))
          (omega (
            arith,
            ltb→le n header_size long,
            length-take n (encode crc32c r),
            length-encode crc32c r,
          ))
          (omega (arith, size, length-take n (encode crc32c r), length-encode crc32c r))
  ]
    where
      whole : header_padded (take header_size (encode crc32c r)) ≡ padded r
      whole = rw (append-nil (encode crc32c r)) at (header_padded-encode crc32c r [] s)

  stop_bad :
      (fuel : ℕ) (front tail : Bytes) {e : Error}
      → header_size ≤ length tail
      → header_padded (take header_size tail) ≤ length tail
      → decode_record crc32c (take (header_padded (take header_size tail)) tail) ≡ err e
      → scan_loop crc32c (suc fuel) (front ++ tail) (length front) ≡ some ([], length front)
  unfolding scan_loop scan_found
  stop_bad fuel front tail h k bad =
      let p : ℕ = header_padded (take header_size tail) in
      rw (drop-append_length (length front) front tail refl) (
        rw (
          le→ltb (length (take header_size tail)) header_size
              (omega (arith, length-take header_size tail)),
          le→ltb (length (take p tail)) p (omega (arith, length-take p tail)),
          bad,
        ))

  -- Zeros read as a record of no key and no value, whose stored checksum is 0.
  zero_block :
      crc32c (zeros 17) ≢ 0
      → decode_record crc32c (zeros 128) ≡ err (crc_mismatch (crc32c (zeros 17)) 0)
  unfolding decode_record
  zero_block h = ground arith

  header_zeros : (m : ℕ) → header_padded (take header_size (zeros (21 + m))) ≡ 128
  unfolding header_padded padded_record_size
  header_zeros m = rw (replicate-add {A = ℕ} 21 m 0)

  block_zeros : (m : ℕ) → take 128 (zeros (128 + m)) ≡ zeros 128
  block_zeros m = rw (replicate-add {A = ℕ} 128 m 0)

  Stops-zeros_long : crc32c (zeros 17) ≢ 0 → (n : ℕ) → header_size ≤ n → Stops crc32c (zeros n)
  Stops-zeros_long h n long fuel front =
      let m : ℕ = n - 21 in
      let en : n ≡ 21 + m = omega arith in
      let size : header_padded (take header_size (zeros n)) ≡ 128 =
        ap (λ k. header_padded (take header_size (zeros k))) en ∙ header_zeros m in
      let all : length (zeros n) ≡ n = length-replicate {A = ℕ} n 0 in
      elim (Bool-cases (ltb n 128)) [
        | inl torn ↦ stop_torn fuel front (zeros n) (omega arith) (omega (arith, ltb→lt n 128 torn))
        | inr full ↦
            let ek : n ≡ 128 + (n - 128) = omega (arith, ltb→le n 128 full) in
            let block : take 128 (zeros n) ≡ zeros 128 =
              ap (λ k. take 128 (zeros k)) ek ∙ block_zeros (n - 128) in
            stop_bad fuel front (zeros n) (omega arith) (omega (arith, ltb→le n 128 full)) (
              ap (λ k. decode_record crc32c (take k (zeros n))) size
              ∙ ap (decode_record crc32c) block
              ∙ zero_block h)
      ]

  Stops-zeros : crc32c (zeros 17) ≢ 0 → (n : ℕ) → Stops crc32c (zeros n)
  Stops-zeros h n fuel front = elim (Bool-cases (ltb n header_size)) [
    | inl short ↦
        stop_short fuel front (zeros n)
          (omega (arith, length-replicate {A = ℕ} n 0, ltb→lt n header_size short))
    | inr long ↦ Stops-zeros_long h n (ltb→le n header_size long) fuel front
  ]

  length-segment : (rs : List Record) → length rs ≤ length (segment crc32c rs)
  length-segment [] = omega arith
  length-segment (r ∷ rs) = omega (
    arith,
    length-segment rs,
    length-append (encode crc32c r) (segment crc32c rs),
    length-encode crc32c r,
    padded-pos crc32c r,
  )

  module _ (crc_fits : (bs : Bytes) → crc32c bs < 2 ^ 32) where
    scan_file-segment :
        (rs : List Record) (tail : Bytes)
        → AllStorable rs
        → Stops crc32c tail
        → scan_file crc32c (segment crc32c rs ++ tail)
          ≡ some (positions 0 rs, length (segment crc32c rs))
    unfolding scan_file
    scan_file-segment rs tail s stops =
        scan_loop-segment crc32c crc_fits rs (suc (length (segment crc32c rs ++ tail))) [] tail s
          stops (omega (arith, length-segment rs, length-append (segment crc32c rs) tail))
        ∙ ap (λ n. some (positions 0 rs, n)) (omega arith)

    -- A segment that was preallocated with zeros scans to the records that were written, each at its
    -- offset, and the scan ends right behind the last one; for records that fit their fields and a
    -- checksum of 32 bits that is not 0 on 17 zeros.
    pub scan_file_preallocated :
        (rs : List Record) (unused : ℕ)
        → AllStorable rs
        → crc32c (zeros 17) ≢ 0
        → scan_file crc32c (segment crc32c rs ++ zeros unused)
          ≡ some (positions 0 rs, length (segment crc32c rs))
    scan_file_preallocated rs unused s h =
        scan_file-segment rs (zeros unused) s (Stops-zeros h unused)

    -- A segment whose last record was cut off at any length scans to the records before it, and the
    -- scan ends where the cut record begins; for records that fit their fields and a checksum of 32
    -- bits.
    pub scan_file_torn :
        (rs : List Record) (last : Record) (kept : ℕ)
        → AllStorable rs
        → IsStorable last
        → kept < padded last
        → scan_file crc32c (segment crc32c rs ++ take kept (encode crc32c last))
          ≡ some (positions 0 rs, length (segment crc32c rs))
    scan_file_torn rs last kept s sl h =
        scan_file-segment rs (take kept (encode crc32c last)) s (Stops-torn last kept sl h)
