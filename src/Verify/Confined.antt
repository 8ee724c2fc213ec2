-- ===== src/Verify/Confined.antt =====
-- The evidence check of scripts/verify_project.py keeps to the evidence directory.
use streaming_fpuna_proyecto.Base.{
  ℕ, ◌+◌, String, Bool, ◌≡◌, refl, inl, inr, List, [], ◌∷◌, ◌++◌, if◌then◌else◌, Bool-cases,
}
use streaming_fpuna_proyecto.Base.Text.{strip}
use streaming_fpuna_proyecto.Base.Lines.{splitlines, lstrip_marks}
use streaming_fpuna_proyecto.Python.{Result, ok, >>=-ext}
use streaming_fpuna_proyecto.Verify.{
  Sha256, Files, FilePath, is_relative_to, parse_entry, check_candidate, check_entry, is_skipped,
  verify_lines, verify_manifest, counted, manifest_text, verify_evidence_checksums,
}
use streaming_fpuna_proyecto.Verify.Checksums.{below_root}

module _ (sha256 : Sha256) (files : Files) (is_file' : FilePath → Result Bool)
    (read' : FilePath → Result (List ℕ))
    (same_kind : (below : FilePath)
      → is_file' (files.evidence_root ++ below) ≡ files.is_file (files.evidence_root ++ below))
    (same_bytes : (below : FilePath)
      → read' (files.evidence_root ++ below) ≡ files.read (files.evidence_root ++ below)) where
  abbrev changed : Files
  changed = record files { is_file = is_file'; read = read' }

  check_candidate-changed :
      (line_number : ℕ) (expected : String) (path : FilePath)
      → check_candidate sha256 changed line_number expected path
        ≡ check_candidate sha256 files line_number expected path
  unfolding check_candidate
  check_candidate-changed line_number expected path =
      elim (Bool-cases (is_relative_to path files.evidence_root)) [
        | inl e ↦
            let (below, same) = below_root path files.evidence_root e in
            rw same (rw (same_kind below, same_bytes below) refl)
        | inr e ↦ rw e refl
      ]

  check_entry-changed :
      (line_number : ℕ) (line : String)
      → check_entry sha256 changed line_number line ≡ check_entry sha256 files line_number line
  unfolding check_entry
  check_entry-changed line_number line =
      >>=-ext (parse_entry line_number line) _ _ λ (expected, relative_name).
        >>=-ext (files.resolve (lstrip_marks relative_name)) _ _
          λ path. check_candidate-changed line_number expected path

  verify_lines-changed :
      (line_number verified : ℕ) (lines : List String)
      → verify_lines sha256 changed line_number verified lines
        ≡ verify_lines sha256 files line_number verified lines
  unfolding verify_lines
  verify_lines-changed line_number verified [] = refl
  verify_lines-changed line_number verified (raw_line ∷ rest) =
      rw (check_entry-changed line_number (strip raw_line)) (
        >>=-ext
          (if is_skipped (strip raw_line)
            then ok verified
            else counted verified (check_entry sha256 files line_number (strip raw_line)))
          _ _ (λ n. verify_lines-changed (line_number + 1) n rest))

  -- Neither the kind nor the bytes of a file outside the evidence directory matter to the verification of the
  -- evidence, whatever the manifest says: it ends in the same way on two file systems with the same manifest
  -- and the same resolution of names that have the same files below that directory.
  pub verify-confined :
      verify_evidence_checksums sha256 (record files { is_file = is_file'; read = read' })
      ≡ verify_evidence_checksums sha256 files
  unfolding verify_evidence_checksums verify_manifest
  verify-confined =
      >>=-ext (manifest_text files.checksum_file files.manifest) _ _
        λ manifest. rw (verify_lines-changed 1 0 (splitlines manifest)) refl
