-- ===== src/Verify/Checksums.antt =====
-- `_verify_evidence_checksums` in scripts/verify_project.py: when it returns, and what.
use Prim.Native.String.{count}
use native.Mathlib.Nat.{zero-add}
use streaming_fpuna_proyecto.Base.{
  ℕ, ◌+◌, ◌<◌, String, true, false, not, ◌≡◌, refl, sym, ap, ◌∙◌, ◌↔◌, inl, inr, Option, none, some,
  List, [], ◌∷◌, ◌++◌, length, All, leb, if◌then◌else◌, ◌==◌, eq_of_==, ==_self, Bool-cases,
  true_of_not-false, arith,
}
use streaming_fpuna_proyecto.Base.Text.{strip}
use streaming_fpuna_proyecto.Base.Lines.{splitlines, split_once, lower, lstrip_marks}
use streaming_fpuna_proyecto.Python.{
  Result, ok, ◌>>=◌, raise_if-ok, >>=-eq-ok, >>-eq-ok, ok-injective,
}
use streaming_fpuna_proyecto.Verify.{
  Sha256, Files, FilePath, is_relative_to, sha256_of, parse_entry, entry_of, check_candidate,
  check_entry, is_skipped, verify_lines, verify_manifest, counted, manifest_text,
  verify_evidence_checksums,
}
use streaming_fpuna_proyecto.Verify.Digest.{IsStreaming, sha256_of_lem}

-- the entries of a manifest: its lines without white space at their ends, but for empty ones and comments
unfoldable pub entries : List String → List String
entries [] = []
entries (raw_line ∷ rest) =
    let line = strip raw_line in if is_skipped line then entries rest else line ∷ entries rest

entries-skipped :
    (raw_line : String) (rest : List String)
    → is_skipped (strip raw_line) ≡ true
    → entries (raw_line ∷ rest) ≡ entries rest
unfolding entries
entries-skipped raw_line rest h = rw h refl

entries-listed :
    (raw_line : String) (rest : List String)
    → is_skipped (strip raw_line) ≡ false
    → entries (raw_line ∷ rest) ≡ strip raw_line ∷ entries rest
unfolding entries
entries-listed raw_line rest h = rw h refl

is_relative_to-append : (root below : FilePath) → is_relative_to (root ++ below) root ≡ true
unfolding is_relative_to
is_relative_to-append [] below = refl
is_relative_to-append (r ∷ root) below = rw (==_self r) (is_relative_to-append root below)

cons_cong : (p r : String) (path rest : FilePath) → p ≡ r → path ≡ rest → p ∷ path ≡ r ∷ rest
cons_cong p r path rest same_part same_rest = cc

pub below_root :
    (path root : FilePath)
    → is_relative_to path root ≡ true
    → (below : FilePath) × (path ≡ root ++ below)
unfolding is_relative_to
below_root path [] h = (path, refl)
below_root [] (r ∷ root) h = cc
below_root (p ∷ path) (r ∷ root) h = elim (Bool-cases (p == r)) [
  | inl e ↦
      let (below, same) = below_root path root (rw e at h) in
      (below, cons_cong p r path (root ++ below) (eq_of_== p r e) same)
  | inr e ↦ absurd (ground (arith, e))
]

parse_entry-eq :
    (line_number : ℕ) (line expected relative_name : String)
    → split_once line ≡ some (expected, relative_name)
    → count expected ≡ 64
    → parse_entry line_number line ≡ ok (expected, relative_name)
unfolding parse_entry
parse_entry-eq line_number line expected relative_name split width = rw split (rw width refl)

parse_entry-ok :
    (line_number : ℕ) (line expected relative_name : String)
    → parse_entry line_number line ≡ ok (expected, relative_name)
    → (split_once line ≡ some (expected, relative_name)) × (count expected ≡ 64)
unfolding parse_entry
parse_entry-ok line_number line expected relative_name = of_split (split_once line)
  where
    of_split :
        (split : Option (String × String))
        → entry_of line_number split ≡ ok (expected, relative_name)
        → (split ≡ some (expected, relative_name)) × (count expected ≡ 64)
    of_split none h = cc
    of_split (some (e, r)) h = ground arith

module _ (sha256 : Sha256) (streaming : IsStreaming sha256) (files : Files) where
  open files use {evidence_root, resolve, is_file, read}

  -- an entry whose digest is that of a file below the evidence directory
  pub record IsGenuine (line : String) : Type 0 where
    pub expected : String
    pub relative_name : String
    pub split : split_once line ≡ some (expected, relative_name)
    pub width : count expected ≡ 64
    pub below : FilePath
    pub resolved : resolve (lstrip_marks relative_name) ≡ ok (evidence_root ++ below)
    pub present : is_file (evidence_root ++ below) ≡ ok true
    pub stream : List ℕ
    pub readable : read (evidence_root ++ below) ≡ ok stream
    pub genuine : sha256.hexdigest (sha256.update sha256.new stream) ≡ lower expected

  check_entry-genuine :
      (line_number : ℕ) (line : String)
      → IsGenuine line
      → check_entry sha256 files line_number line ≡ ok tt
  unfolding check_entry check_candidate
  check_entry-genuine line_number line g =
      rw (parse_entry-eq line_number line _ _ g.split g.width) (
        rw g.resolved (
          rw (is_relative_to-append evidence_root g.below) (
            rw g.present (
              rw g.readable (
                rw (sha256_of_lem sha256 streaming g.stream, g.genuine)
                  (rw (==_self (lower g.expected)) refl))))))

  digest_equal :
      (stream : List ℕ) (expected : String)
      → not (sha256_of sha256 stream == lower expected) ≡ false
      → sha256.hexdigest (sha256.update sha256.new stream) ≡ lower expected
  digest_equal stream expected h =
      sym (sha256_of_lem sha256 streaming stream)
      ∙ eq_of_== (sha256_of sha256 stream) (lower expected) (ground (arith, h))

  -- a file that passed its check
  check_candidate-ok :
      (line_number : ℕ) (expected : String) (path : FilePath)
      → check_candidate sha256 files line_number expected path ≡ ok tt
      → (is_relative_to path evidence_root ≡ true)
        × (is_file path ≡ ok true)
        × (stream : List ℕ) × (read path ≡ ok stream)
        × (sha256.hexdigest (sha256.update sha256.new stream) ≡ lower expected)
  unfolding check_candidate
  check_candidate-ok line_number expected path h =
      let (inside, h₁) = >>-eq-ok _ h in
      let (present, is_present, h₂) = >>=-eq-ok (is_file path) h₁ in
      let (there, h₃) = >>-eq-ok _ h₂ in
      let (stream, is_stream, same) = >>=-eq-ok (read path) h₃ in
      let is_inside = raise_if-ok _ _ _ inside in
      let is_there = raise_if-ok _ _ _ there in
      let is_same = raise_if-ok _ _ _ same in
      (
        ground (arith, is_inside),
        is_present ∙ ap ok (true_of_not-false present is_there),
        stream,
        is_stream,
        digest_equal stream expected is_same,
      )

  check_entry-ok :
      (line_number : ℕ) (line : String)
      → check_entry sha256 files line_number line ≡ ok tt
      → IsGenuine line
  unfolding check_entry
  check_entry-ok line_number line h =
      let ((expected, relative_name), is_entry, h₁) = >>=-eq-ok (parse_entry line_number line) h in
      let (split, width) = parse_entry-ok line_number line expected relative_name is_entry in
      let (path, resolved, h₂) = >>=-eq-ok (resolve (lstrip_marks relative_name)) h₁ in
      let (inside, present, stream, readable, genuine) =
        check_candidate-ok line_number expected path h₂ in
      let (below, same) = below_root path evidence_root inside in
      record {
        expected = expected;
        relative_name = relative_name;
        split = split;
        width = width;
        below = below;
        resolved = resolved ∙ ap ok same;
        present = ap is_file (sym same) ∙ present;
        stream = stream;
        readable = ap read (sym same) ∙ readable;
        genuine = genuine;
      }

  verify_lines-genuine :
      (line_number verified : ℕ) (lines : List String)
      → All IsGenuine (entries lines)
      → verify_lines sha256 files line_number verified lines
        ≡ ok (verified + length (entries lines))
  unfolding verify_lines
  verify_lines-genuine line_number verified [] h = unfold entries in ap ok (omega arith)
  verify_lines-genuine line_number verified (raw_line ∷ rest) h =
      elim (Bool-cases (is_skipped (strip raw_line))) [
        | inl e ↦
            rw (e, entries-skipped raw_line rest e)
              (verify_lines-genuine (line_number + 1) verified rest
                (rw (entries-skipped raw_line rest e) at h))
        | inr e ↦
            let (g, gs) = rw (entries-listed raw_line rest e) at h in
            rw (e, entries-listed raw_line rest e)
              (rw (check_entry-genuine line_number (strip raw_line) g) (
                verify_lines-genuine (line_number + 1) (verified + 1) rest gs
                ∙ ap ok (omega arith)))
      ]

  verify_lines-ok :
      (line_number verified total : ℕ) (lines : List String)
      → verify_lines sha256 files line_number verified lines ≡ ok total
      → All IsGenuine (entries lines) × (verified + length (entries lines) ≡ total)
  unfolding verify_lines
  verify_lines-ok line_number verified total [] h =
      unfold entries in (tt, omega (arith, ok-injective h))
  verify_lines-ok line_number verified total (raw_line ∷ rest) h =
      elim (Bool-cases (is_skipped (strip raw_line))) [
        | inl e ↦
            rw (entries-skipped raw_line rest e)
              (verify_lines-ok (line_number + 1) verified total rest (rw e at h))
        | inr e ↦
            let (n, is_counted, h₁) =
              >>=-eq-ok (counted verified (check_entry sha256 files line_number (strip raw_line)))
                (rw e at h) in
            let (done, checked, h₂) =
              >>=-eq-ok (check_entry sha256 files line_number (strip raw_line)) is_counted in
            let (gs, sum) = verify_lines-ok (line_number + 1) n total rest h₁ in
            rw (entries-listed raw_line rest e) (
              (check_entry-ok line_number (strip raw_line) checked, gs),
              omega (arith, ok-injective h₂),
            )
      ]

  manifest_text-ok :
      (manifest : Option (Result String)) (checksum_file text : String)
      → manifest_text checksum_file manifest ≡ ok text
      → manifest ≡ some (ok text)
  manifest_text-ok none checksum_file text h = cc
  manifest_text-ok (some read_text) checksum_file text h = ap some h

  verify_manifest-ok :
      (manifest : String) (verified : ℕ)
      → verify_manifest sha256 files manifest ≡ ok verified
      → All IsGenuine (entries (splitlines manifest))
        × (length (entries (splitlines manifest)) ≡ verified)
        × (0 < verified)
  unfolding verify_manifest
  verify_manifest-ok manifest verified h =
      let (total, is_total, h₁) =
        >>=-eq-ok (verify_lines sha256 files 1 0 (splitlines manifest)) h in
      let (filled, h₂) = >>-eq-ok _ h₁ in
      let (all, sum) = verify_lines-ok 1 0 total (splitlines manifest) is_total in
      let some_entry = raise_if-ok (leb total 0) _ _ filled in
      let same : total ≡ verified = ok-injective h₂ in
      (all, omega (arith, sum, same), ground (arith, same, some_entry))

  verify_manifest-genuine :
      (manifest : String) (verified : ℕ)
      → All IsGenuine (entries (splitlines manifest))
      → length (entries (splitlines manifest)) ≡ verified
      → 0 < verified
      → verify_manifest sha256 files manifest ≡ ok verified
  unfolding verify_manifest
  verify_manifest-genuine manifest verified all sum some_entry =
      let positive : leb verified 0 ≡ false = ground arith in
      rw (verify_lines-genuine 1 0 (splitlines manifest) all)
        (rw (zero-add (length (entries (splitlines manifest))), sum) (rw positive refl))

  -- The verification of the evidence returns a count exactly when the manifest is there and can be read, it
  -- has that many entries, at least one, and each of them has a digest of 64 characters and names a file
  -- below the evidence directory whose bytes have that digest, in either case of the letters. The hash is
  -- assumed to take bytes in parts as it takes them together.
  pub verify-ok_iff :
      (verified : ℕ)
      → (verify_evidence_checksums sha256 files ≡ ok verified) ↔ (
          (text : String) × (files.manifest ≡ some (ok text))
          × All IsGenuine (entries (splitlines text))
          × (length (entries (splitlines text)) ≡ verified)
          × (0 < verified))
  unfolding verify_evidence_checksums
  verify-ok_iff verified = (
    λ h.
        let (text, is_text, h₁) = >>=-eq-ok (manifest_text files.checksum_file files.manifest) h in
        let (all, sum, some_entry) = verify_manifest-ok text verified h₁ in
        (
          text,
          manifest_text-ok files.manifest files.checksum_file text is_text,
          all,
          sum,
          some_entry,
        ),
    λ (text, is_text, all, sum, some_entry).
        ap (λ m. manifest_text files.checksum_file m >>= verify_manifest sha256 files) is_text
        ∙ verify_manifest-genuine text verified all sum some_entry,
  )
