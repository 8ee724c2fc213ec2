-- ===== src/Tests/Verify.antt =====
-- scripts/verify_project.py on a manifest with one entry, and on manifests that it refuses.
use mathlib.Core.List.{append_assoc, append-nil}
use streaming_fpuna_proyecto.Base.{
  ℕ, ◌<◌, String, true, false, ◌≡◌, refl, ◌↔◌, none, some, List, [], ◌∷◌, ◌++◌, length, All,
  contains, ltb, if◌then◌else◌, ◌==◌, String-discrete, arith,
}
use streaming_fpuna_proyecto.Base.Int.{pos, negsuc}
use streaming_fpuna_proyecto.Base.Text.{is_blank, strip}
use streaming_fpuna_proyecto.Base.Decimal.{decimal}
use streaming_fpuna_proyecto.Base.Lines.{splitlines, split_once, lower, lstrip_marks}
use streaming_fpuna_proyecto.Python.{system_exit, exit_status, os_error, Result, ok, throw}
use streaming_fpuna_proyecto.Verify.{
  Sha256, Files, FilePath, is_relative_to, update_blocks, block_size, sha256_of, check_entry,
  parse_entry, check_candidate, is_skipped, verify_lines, verify_manifest,
  verify_evidence_checksums, Host, Args, main, run_check, require_supported_python,
  repository_commit, require_clean_worktree,
}
use streaming_fpuna_proyecto.Verify.Digest.{IsStreaming, update_blocks-total}
use streaming_fpuna_proyecto.Verify.Checksums.{entries, IsGenuine, verify-ok_iff}
use streaming_fpuna_proyecto.Verify.Confined.{verify-confined}
use streaming_fpuna_proyecto.Verify.Main.{AllPassed, main-ok_iff}

-- a digest that is the bytes so far, written as 64 letters for any three bytes
abbrev sha256 : Sha256
sha256 = record {
  Digest = List ℕ;
  new = [];
  update = λ digest bytes. digest ++ bytes;
  hexdigest = λ digest.
      if ltb (length digest) 3
      then "short"
      else "aaaaaaaaaaaaaaaaaaaaaaaaaaaaaaaaaaaaaaaaaaaaaaaaaaaaaaaaaaaaaaaa";
}

sha256-IsStreaming : IsStreaming sha256
sha256-IsStreaming = record { concatenates = append_assoc; unchanged = append-nil }

update_blocks-total_example : update_blocks sha256 4 2 [] (7 ∷ 8 ∷ 9 ∷ []) ≡ some (7 ∷ 8 ∷ 9 ∷ [])
update_blocks-total_example =
    update_blocks-total sha256 sha256-IsStreaming 4 2 [] (7 ∷ 8 ∷ 9 ∷ []) (omega arith)
      (omega arith)

blocks_run_out : update_blocks sha256 2 2 [] (7 ∷ 8 ∷ 9 ∷ []) ≡ none
unfolding update_blocks
blocks_run_out = refl

lines_taken : splitlines "a\r\n\nb c\n" ≡ "a" ∷ "" ∷ "b c" ∷ []
unfolding splitlines
lines_taken = refl

words_taken : split_once "ab  *c d" ≡ some ("ab", "*c d")
unfolding split_once
words_taken = refl

marks_taken : lstrip_marks "* *c" ≡ "c"
unfolding lstrip_marks
marks_taken = refl

abbrev files_with : String → Files
files_with text = record {
  evidence_root = "repo" ∷ "evidence" ∷ [];
  checksum_file = "/repo/evidence/SHA256SUMS.txt";
  manifest = some (ok text);
  resolve = λ name.
      if name == "../secret"
      then ok ("repo" ∷ "secret" ∷ [])
      else ok ("repo" ∷ "evidence" ∷ name ∷ []);
  is_file = λ path. ok true;
  read = λ path. ok (7 ∷ 8 ∷ 9 ∷ []);
}

abbrev one_entry : String
one_entry =
    "# evidence\n\nAAAAAAAAAAAAAAAAAAAAAAAAAAAAAAAAAAAAAAAAAAAAAAAAAAAAAAAAAAAAAAAA *report.txt\n"

abbrev files : Files
files = files_with one_entry

one_verified : verify_evidence_checksums sha256 files ≡ ok 1
unfolding verify_evidence_checksums verify_manifest verify_lines check_entry parse_entry
    check_candidate is_skipped is_relative_to sha256_of update_blocks block_size splitlines strip
    split_once lower lstrip_marks String-discrete
one_verified = refl

escape_refused :
    verify_evidence_checksums sha256
      (files_with "aaaaaaaaaaaaaaaaaaaaaaaaaaaaaaaaaaaaaaaaaaaaaaaaaaaaaaaaaaaaaaaa  ../secret")
    ≡ throw system_exit "Checksum entry escapes the evidence directory at line 1"
unfolding verify_evidence_checksums verify_manifest verify_lines check_entry parse_entry
    check_candidate is_skipped is_relative_to sha256_of update_blocks block_size splitlines strip
    split_once lower lstrip_marks String-discrete decimal
escape_refused = refl

empty_refused :
    verify_evidence_checksums sha256 (files_with "# nothing\n")
    ≡ throw system_exit "The evidence checksum manifest is empty"
unfolding verify_evidence_checksums verify_manifest verify_lines is_skipped splitlines strip
    String-discrete
empty_refused = refl

verify-ok_iff_example : (verify_evidence_checksums sha256 files ≡ ok 1) ↔ (
    (text : String) × (files.manifest ≡ some (ok text))
    × All (IsGenuine sha256 sha256-IsStreaming files) (entries (splitlines text))
    × (length (entries (splitlines text)) ≡ 1)
    × (0 < 1))
verify-ok_iff_example = verify-ok_iff sha256 sha256-IsStreaming files 1

-- a file system on which nothing outside the evidence directory can be read
abbrev read_inside : FilePath → Result (List ℕ)
read_inside path =
    if is_relative_to path ("repo" ∷ "evidence" ∷ [])
    then ok (7 ∷ 8 ∷ 9 ∷ [])
    else throw os_error "EACCES"

read_inside-same :
    (below : FilePath) → read_inside ("repo" ∷ "evidence" ∷ below) ≡ ok (7 ∷ 8 ∷ 9 ∷ [])
unfolding is_relative_to String-discrete
read_inside-same below = refl

verify-confined_example :
    verify_evidence_checksums sha256
      (record files { is_file = λ path. ok true; read = read_inside })
    ≡ verify_evidence_checksums sha256 files
verify-confined_example =
    verify-confined sha256 files (λ path. ok true) read_inside (λ below. refl) read_inside-same

abbrev host : Host
host = record {
  version_info = (3, 13);
  version = "3.13.1";
  executable = "python";
  run = λ command. ok (record { returncode = pos 0; stdout = "" });
  which = λ name. none;
}

abbrev args : Args
args = record { skip_compose = true; require_clean = true }

main-ok_iff_example : (main sha256 host files args ≡ ok (pos 0)) ↔ AllPassed sha256 host files args
main-ok_iff_example = main-ok_iff sha256 host files args

main_passes : main sha256 host files args ≡ ok (pos 0)
unfolding main require_supported_python require_clean_worktree repository_commit run_check is_blank
    strip
main_passes = rw one_verified refl

abbrev failing_tests : Host
failing_tests = record host { run = λ command. ok (record { returncode = negsuc 8; stdout = "" }) }

failure_passed_on : run_check failing_tests ("pytest" ∷ []) ≡ throw (exit_status (negsuc 8)) ""
unfolding run_check
failure_passed_on = refl

-- a host without Git: `subprocess.run` raises
abbrev no_git : Host
no_git = record host {
  run = λ command.
      if contains command "git"
      then throw os_error "No such file or directory: 'git'"
      else ok (record { returncode = pos 0; stdout = "" });
}

abbrev code_only : Args
code_only = record { skip_compose = true; require_clean = false }

commit_not_asked :
    main sha256 no_git files code_only ≡ throw os_error "No such file or directory: 'git'"
unfolding main require_supported_python repository_commit contains String-discrete
commit_not_asked = refl
