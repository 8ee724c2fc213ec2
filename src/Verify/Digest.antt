-- ===== src/Verify/Digest.antt =====
-- The loop of `_sha256` in scripts/verify_project.py, block by block.
use streaming_fpuna_proyecto.Base.{
  ℕ, zero, suc, ◌+◌, ◌<◌, ◌≡◌, sym, ap, ◌∙◌, some, List, [], ◌∷◌, ◌++◌, length, take, drop,
  take-append-drop, length-drop-le, arith,
}
use streaming_fpuna_proyecto.Verify.{Sha256, update_blocks, finished, block_size, sha256_of}

-- what hashlib documents of `update`: two calls are one with the concatenation, and nothing is fed by
-- an empty text
pub record IsStreaming (sha256 : Sha256) : Type 0 where
  pub concatenates :
      (digest : sha256.Digest) (xs ys : List ℕ)
      → sha256.update (sha256.update digest xs) ys ≡ sha256.update digest (xs ++ ys)
  pub unchanged : (digest : sha256.Digest) → sha256.update digest [] ≡ digest

block_size-pos : 0 < block_size
unfolding block_size
block_size-pos = omega arith

module _ (sha256 : Sha256) (streaming : IsStreaming sha256) where
  open sha256 use {Digest, new, update, hexdigest}

  -- On a fuel above the number of bytes, the loop that feeds a stream to a digest in blocks of any positive
  -- size ends, and leaves the digest that one call with the whole stream would leave.
  pub update_blocks-total :
      (fuel size : ℕ) (digest : Digest) (stream : List ℕ)
      → 0 < size
      → length stream < fuel
      → update_blocks sha256 fuel size digest stream ≡ some (update digest stream)
  unfolding update_blocks
  update_blocks-total zero size digest stream some_bytes enough = absurd (omega arith)
  update_blocks-total (suc fuel) zero digest stream some_bytes enough = absurd (omega arith)
  update_blocks-total (suc fuel) (suc size) digest [] some_bytes enough =
      ap some (sym (streaming.unchanged digest))
  update_blocks-total (suc fuel) (suc size) digest (byte ∷ bytes) some_bytes enough =
      update_blocks-total fuel (suc size) (update digest (byte ∷ take size bytes)) (drop size bytes)
        some_bytes (omega (arith, length-drop-le size bytes))
      ∙ ap some (
          streaming.concatenates digest (byte ∷ take size bytes) (drop size bytes)
          ∙ ap (λ bs. update digest (byte ∷ bs)) (take-append-drop size bytes))

  -- the digest of a file is that of its bytes
  pub sha256_of_lem : (stream : List ℕ) → sha256_of sha256 stream ≡ hexdigest (update new stream)
  unfolding sha256_of
  sha256_of_lem stream =
      ap (λ d. hexdigest (finished sha256 d))
        (update_blocks-total (length stream + 1) block_size new stream block_size-pos (omega arith))
