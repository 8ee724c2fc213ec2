-- ===== src/Verify.antt =====
-- scripts/verify_project.py: the checks of the repository, and the checksums of the evidence.
pub mod Digest
pub mod Checksums
pub mod Confined
pub mod Main
use Prim.Native.String.{◌++◌ as ◌<>◌, count}
use streaming_fpuna_proyecto.Base.{
  ℕ, zero, suc, ◌+◌, ◌*◌, String, Bool, true, false, not, ◌&&◌, ◌||◌, Option, none, some, List, [],
  ◌∷◌, length, take, drop, ltb, leb, if◌then◌else◌, ◌==◌,
}
use streaming_fpuna_proyecto.Base.Int.{ℤ, pos}
use streaming_fpuna_proyecto.Base.Decimal.{decimal}
use text.Mathlib.Text.{starts_with}
use streaming_fpuna_proyecto.Base.Text.{strip, is_blank}
use streaming_fpuna_proyecto.Base.Lines.{splitlines, split_once, lower, lstrip_marks}
use streaming_fpuna_proyecto.Python.{
  system_exit, exit_status, Result, ok, raise, throw, raise_if, ◌>>=◌, ◌>>◌,
}

-- a path that is resolved, by its parts
abbrev pub FilePath : Type 0
FilePath = List String

-- SHA-256 of `hashlib`: an object that is fed bytes
pub record Sha256 : Type 1 where
  pub Digest : Type 0
  pub new : Digest
  pub update : Digest → List ℕ → Digest
  pub hexdigest : Digest → String

-- what the script meets of the file system: `EVIDENCE_DIRECTORY.resolve()`, the manifest's path, its text
-- if it is a file, `(EVIDENCE_DIRECTORY / name).resolve()`, `is_file()` and the bytes of a file
pub record Files : Type 0 where
  pub evidence_root : FilePath
  pub checksum_file : String
  pub manifest : Option (Result String)
  pub resolve : String → Result FilePath
  pub is_file : FilePath → Result Bool
  pub read : FilePath → Result (List ℕ)

-- `candidate.relative_to(root)` raises nothing
unfoldable pub is_relative_to : FilePath → FilePath → Bool
is_relative_to path [] = true
is_relative_to [] (r ∷ root) = false
is_relative_to (p ∷ path) (r ∷ root) = p == r && is_relative_to path root

-- `candidate.name`
unfoldable pub name_of : FilePath → String
name_of [] = ""
name_of (part ∷ []) = part
name_of (part ∷ next ∷ path) = name_of (next ∷ path)

unfoldable pub block_size : ℕ
block_size = 1024 * 1024

abbrev pub at_line : String → ℕ → String
at_line message line_number = message <> (" at line " <> decimal line_number)

abbrev pub entry_of : ℕ → Option (String × String) → Result (String × String)
entry_of line_number none = throw system_exit (at_line "Invalid checksum entry" line_number)
entry_of line_number (some (expected, relative_name)) =
    if leb (count expected) 64 && leb 64 (count expected)
    then ok (expected, relative_name)
    else throw system_exit (at_line "Invalid checksum entry" line_number)

-- the two parts of an entry
unfoldable pub parse_entry : ℕ → String → Result (String × String)
parse_entry line_number line = entry_of line_number (split_once line)

abbrev pub mismatch : FilePath → String → String → String
mismatch candidate expected actual =
    "Checksum mismatch for "
    <> (name_of candidate <> (": expected " <> (expected <> (", found " <> actual))))

-- `not line or line.startswith("#")`
unfoldable pub is_skipped : String → Bool
is_skipped line = line == "" || starts_with line "#"

abbrev pub counted : ℕ → Result (Unit {0}) → Result ℕ
counted verified checked = checked >>= λ _. ok (verified + 1)

abbrev pub manifest_text : String → Option (Result String) → Result String
manifest_text checksum_file none =
    throw system_exit ("Missing checksum manifest: " <> checksum_file)
manifest_text checksum_file (some read_text) = read_text

module _ (sha256 : Sha256) where
  open sha256 use {Digest, update}

  -- `for block in iter(lambda: stream.read(size), b"")`, on fuel
  unfoldable pub update_blocks : ℕ → ℕ → Digest → List ℕ → Option Digest
  update_blocks zero size digest stream = none
  update_blocks (suc fuel) size digest stream = elim (take size stream) [
    | [] ↦ some digest
    | byte ∷ bytes ↦ update_blocks fuel size (update digest (byte ∷ bytes)) (drop size stream)
  ]

  -- what a fuel that suffices comes to
  abbrev pub finished : Option Digest → Digest
  finished none = sha256.new
  finished (some digest) = digest

  -- `_sha256`, of the bytes of a file: each round but the last reads at least one of them
  unfoldable pub sha256_of : List ℕ → String
  sha256_of stream =
      sha256.hexdigest (finished (update_blocks (length stream + 1) block_size sha256.new stream))

  -- from the test of its place on, for the file that an entry names
  unfoldable pub check_candidate : Files → ℕ → String → FilePath → Result (Unit {0})
  check_candidate files line_number expected candidate = do
    raise_if (not (is_relative_to candidate files.evidence_root)) system_exit
        (at_line "Checksum entry escapes the evidence directory" line_number)
    present ← files.is_file candidate
    raise_if (not present) system_exit ("Missing evidence file: " <> name_of candidate)
    stream ← files.read candidate
    raise_if (not (sha256_of stream == lower expected)) system_exit
        (mismatch candidate expected (sha256_of stream))

  unfoldable pub check_entry : Files → ℕ → String → Result (Unit {0})
  check_entry files line_number line = do
    (expected, relative_name) ← parse_entry line_number line
    candidate ← files.resolve (lstrip_marks relative_name)
    check_candidate files line_number expected candidate

  -- the loop over the lines, with the number of the next one
  unfoldable pub verify_lines : Files → ℕ → ℕ → List String → Result ℕ
  verify_lines files line_number verified [] = ok verified
  verify_lines files line_number verified (raw_line ∷ rest) = do
    verified' ←
        if is_skipped (strip raw_line)
        then ok verified
        else counted verified (check_entry files line_number (strip raw_line))
    verify_lines files (line_number + 1) verified' rest

  -- from the loop on
  unfoldable pub verify_manifest : Files → String → Result ℕ
  verify_manifest files manifest = do
    verified ← verify_lines files 1 0 (splitlines manifest)
    raise_if (leb verified 0) system_exit "The evidence checksum manifest is empty"
    ok verified

  unfoldable pub verify_evidence_checksums : Files → Result ℕ
  verify_evidence_checksums files = do
    manifest ← manifest_text files.checksum_file files.manifest
    verify_manifest files manifest

-- a command that `subprocess.run` has run
pub record Completed : Type 0 where
  pub returncode : ℤ
  pub stdout : String

-- what the script meets of the host: the interpreter, `subprocess.run` and `shutil.which`
pub record Host : Type 0 where
  pub version_info : ℕ × ℕ
  pub version : String
  pub executable : String
  pub run : List String → Result Completed
  pub which : String → Option String

abbrev pub is_zero : ℤ → Bool
is_zero (pos zero) = true
is_zero _ = false

-- `_run`
unfoldable pub run_check : Host → List String → Result (Unit {0})
run_check host command = do
  completed ← host.run command
  raise_if (not (is_zero completed.returncode)) (exit_status completed.returncode) ""

-- `<=` of two pairs
abbrev pub leb_pair : ℕ × ℕ → ℕ × ℕ → Bool
leb_pair (a, b) (c, d) = ltb a c || leb a c && leb b d

abbrev pub supported_python_min : ℕ × ℕ
supported_python_min = (3, 12)

abbrev pub supported_python_max_exclusive : ℕ × ℕ
supported_python_max_exclusive = (3, 15)

unfoldable pub require_supported_python : Host → Result (Unit {0})
require_supported_python host =
    raise_if
      (not (
        leb_pair supported_python_min host.version_info
        && not (leb_pair supported_python_max_exclusive host.version_info)))
      system_exit ("Python 3.12 or newer and lower than 3.15 is required; found " <> host.version)

unfoldable pub repository_commit : Host → Result String
repository_commit host = do
  completed ← host.run ("git" ∷ "rev-parse" ∷ "HEAD" ∷ [])
  ok (if is_zero completed.returncode then strip completed.stdout else "unavailable")

unfoldable pub require_clean_worktree : Host → Result (Unit {0})
require_clean_worktree host = do
  completed ← host.run ("git" ∷ "status" ∷ "--porcelain" ∷ [])
  raise_if (not (is_zero completed.returncode)) system_exit
      "Git is required when --require-clean is used"
  raise_if (not (is_blank completed.stdout)) system_exit "The Git worktree is not clean"

-- what `_parse_args` returns
pub record Args : Type 0 where
  pub skip_compose : Bool
  pub require_clean : Bool

abbrev pub compose_with : Host → Option String → Result (Unit {0})
compose_with host none =
    throw system_exit
      "Docker was not found; install Docker or use --skip-compose for code-only verification"
compose_with host (some docker) = run_check host (docker ∷ "compose" ∷ "config" ∷ "--quiet" ∷ [])

-- `main` prints the commit and the count, and returns 0
unfoldable pub main : Sha256 → Host → Files → Args → Result ℤ
main sha256 host files args = do
  require_supported_python host
  (if args.require_clean then require_clean_worktree host else ok tt)
  commit ← repository_commit host
  run_check host (host.executable ∷ "-m" ∷ "pytest" ∷ "-q" ∷ [])
  run_check host (host.executable ∷ "-m" ∷ "ruff" ∷ "check" ∷ "." ∷ [])
  run_check host (host.executable ∷ "-m" ∷ "ruff" ∷ "format" ∷ "--check" ∷ "." ∷ [])
  verified_checksums ← verify_evidence_checksums sha256 files
  (if args.skip_compose then ok tt else compose_with host (host.which "docker"))
  ok (pos 0)
