-- ===== src/Verify/Main.antt =====
-- `main` of scripts/verify_project.py: when it returns 0.
use streaming_fpuna_proyecto.Base.{
  ℕ, zero, suc, ◌≤◌, ◌<◌, String, Bool, true, false, not, ◌≡◌, refl, ◌↔◌, inl, inr, ◌⊎◌, Option,
  none, some, List, [], ◌∷◌, if◌then◌else◌, true_of_not-false, arith,
}
use streaming_fpuna_proyecto.Base.Int.{ℤ, pos, negsuc}
use streaming_fpuna_proyecto.Base.Text.{is_blank, strip}
use streaming_fpuna_proyecto.Python.{Result, ok, raise_if-ok, >>=-eq-ok, >>-eq-ok}
use streaming_fpuna_proyecto.Verify.{
  Sha256, Files, Host, Args, Completed, is_zero, run_check, require_supported_python,
  repository_commit, require_clean_worktree, compose_with, main, verify_evidence_checksums,
}

abbrev pub python_command : Host → List String → List String
python_command host arguments = host.executable ∷ "-m" ∷ arguments

-- a command that runs and returns 0
abbrev pub Passes : Host → List String → Type 0
Passes host command =
    (completed : Completed) × (host.run command ≡ ok completed) × (completed.returncode ≡ pos 0)

-- `git status --porcelain` passes and prints white space only
abbrev pub IsClean : Host → Type 0
IsClean host =
    (completed : Completed) × (host.run ("git" ∷ "status" ∷ "--porcelain" ∷ []) ≡ ok completed)
    × (completed.returncode ≡ pos 0)
    × (is_blank completed.stdout ≡ true)

-- a minor version of Python 3 from 12 to 14
abbrev pub IsSupported : ℕ × ℕ → Type 0
IsSupported version = (version.0 ≡ 3) × (12 ≤ version.1) × (version.1 < 15)

-- Docker is found, and takes the configuration
abbrev pub Composes : Host → Type 0
Composes host =
    (docker : String) × (host.which "docker" ≡ some docker)
    × Passes host (docker ∷ "compose" ∷ "config" ∷ "--quiet" ∷ [])

is_zero-eq : (n : ℤ) → not (is_zero n) ≡ false → n ≡ pos 0
is_zero-eq (pos zero) h = refl
is_zero-eq (pos (suc n)) h = cc
is_zero-eq (negsuc n) h = cc

when_ok :
    (b : Bool) (m : Result (Unit {0})) {P : Type 0}
    → (m ≡ ok tt) ↔ P
    → ((if b then m else ok tt) ≡ ok tt) ↔ ((b ≡ false) ⊎ P)
when_ok true m e = (λ h. inr (e.0 h), λ p. elim p [ inl no_call ↦ cc | inr passed ↦ e.1 passed ])
when_ok false m e = (λ h. inl refl, λ p. refl)

unless_ok :
    (b : Bool) (m : Result (Unit {0})) {P : Type 0}
    → (m ≡ ok tt) ↔ P
    → ((if b then ok tt else m) ≡ ok tt) ↔ ((b ≡ true) ⊎ P)
unless_ok true m e = (λ h. inl refl, λ p. refl)
unless_ok false m e = (λ h. inr (e.0 h), λ p. elim p [ inl no_call ↦ cc | inr passed ↦ e.1 passed ])

run_check-Passes :
    (host : Host) (command : List String) → run_check host command ≡ ok tt → Passes host command
unfolding run_check
run_check-Passes host command h =
    let (completed, ran, h₁) = >>=-eq-ok (host.run command) h in
    let returned = raise_if-ok (not (is_zero completed.returncode)) _ _ h₁ in
    (completed, ran, is_zero-eq completed.returncode returned)

Passes-run_check :
    (host : Host) (command : List String) → Passes host command → run_check host command ≡ ok tt
unfolding run_check
Passes-run_check host command (completed, ran, zero_code) = rw ran (rw zero_code refl)

require_supported_python-ok :
    (host : Host) → (require_supported_python host ≡ ok tt) ↔ IsSupported host.version_info
unfolding require_supported_python
require_supported_python-ok host =
    (λ h. ground (arith, raise_if-ok _ _ _ h), λ (three, low, high). ground arith)

require_clean_worktree-ok : (host : Host) → (require_clean_worktree host ≡ ok tt) ↔ IsClean host
unfolding require_clean_worktree
require_clean_worktree-ok host = (
  λ h.
      let (completed, ran, h₁) = >>=-eq-ok (host.run _) h in
      let (returned, h₂) = >>-eq-ok _ h₁ in
      let quiet = raise_if-ok (not (is_blank completed.stdout)) _ _ h₂ in
      (
        completed,
        ran,
        is_zero-eq completed.returncode (raise_if-ok _ _ _ returned),
        true_of_not-false (is_blank completed.stdout) quiet,
      ),
  λ (completed, ran, zero_code, quiet). rw ran (rw (zero_code, quiet) refl),
)

compose_with-ok : (host : Host) → (compose_with host (host.which "docker") ≡ ok tt) ↔ Composes host
compose_with-ok host = (
  found (host.which "docker") refl,
  λ (docker, is_docker, passes). rw is_docker (Passes-run_check host _ passes),
)
  where
    found :
        (answer : Option String)
        → host.which "docker" ≡ answer
        → compose_with host answer ≡ ok tt
        → Composes host
    found none e h = cc
    found (some docker) e h = (docker, e, run_check-Passes host _ h)

repository_commit-ok :
    (host : Host) (commit : String)
    → repository_commit host ≡ ok commit
    → (completed : Completed) × (host.run ("git" ∷ "rev-parse" ∷ "HEAD" ∷ []) ≡ ok completed)
unfolding repository_commit
repository_commit-ok host commit h =
    let (completed, ran, _) = >>=-eq-ok (host.run _) h in (completed, ran)

ran-repository_commit :
    (host : Host) (completed : Completed)
    → host.run ("git" ∷ "rev-parse" ∷ "HEAD" ∷ []) ≡ ok completed
    → (commit : String) × (repository_commit host ≡ ok commit)
unfolding repository_commit
ran-repository_commit host completed ran =
    (if is_zero completed.returncode then strip completed.stdout else "unavailable", rw ran refl)

module _ (sha256 : Sha256) (host : Host) (files : Files) (args : Args) where
  -- what a verification that returns 0 has found
  pub record AllPassed : Type 0 where
    pub supported : IsSupported host.version_info
    pub clean : (args.require_clean ≡ false) ⊎ IsClean host
    pub asked : Completed
    pub git_ran : host.run ("git" ∷ "rev-parse" ∷ "HEAD" ∷ []) ≡ ok asked
    pub tested : Passes host (python_command host ("pytest" ∷ "-q" ∷ []))
    pub linted : Passes host (python_command host ("ruff" ∷ "check" ∷ "." ∷ []))
    pub formatted : Passes host (python_command host ("ruff" ∷ "format" ∷ "--check" ∷ "." ∷ []))
    pub verified : ℕ
    pub evidence : verify_evidence_checksums sha256 files ≡ ok verified
    pub composed : (args.skip_compose ≡ true) ⊎ Composes host

  -- The verification returns 0 exactly when the interpreter is Python 3.12, 3.13 or 3.14, the worktree is
  -- clean or need not be, Git can be started, the tests, the linter and the formatter return 0, the
  -- evidence is verified, and Docker is found and takes the configuration or is skipped.
  pub main-ok_iff : (main sha256 host files args ≡ ok (pos 0)) ↔ AllPassed
  unfolding main
  main-ok_iff = (
    λ h.
        let (supported, h₁) = >>-eq-ok (require_supported_python host) h in
        let (clean, h₂) =
          >>-eq-ok (if args.require_clean then require_clean_worktree host else ok tt) h₁ in
        let (commit, is_commit, h₃) = >>=-eq-ok (repository_commit host) h₂ in
        let (tested, h₄) = >>-eq-ok (run_check host _) h₃ in
        let (linted, h₅) = >>-eq-ok (run_check host _) h₄ in
        let (formatted, h₆) = >>-eq-ok (run_check host _) h₅ in
        let (verified, evidence, h₇) = >>=-eq-ok (verify_evidence_checksums sha256 files) h₆ in
        let (composed, _) =
          >>-eq-ok (if args.skip_compose then ok tt else compose_with host (host.which "docker"))
            h₇ in
        let (asked, git_ran) = repository_commit-ok host commit is_commit in
        record {
          supported = (require_supported_python-ok host).0 supported;
          clean = (when_ok args.require_clean _ (require_clean_worktree-ok host)).0 clean;
          asked = asked;
          git_ran = git_ran;
          tested = run_check-Passes host _ tested;
          linted = run_check-Passes host _ linted;
          formatted = run_check-Passes host _ formatted;
          verified = verified;
          evidence = evidence;
          composed = (unless_ok args.skip_compose _ (compose_with-ok host)).0 composed;
        },
    λ a.
        let (commit, is_commit) = ran-repository_commit host a.asked a.git_ran in
        let supported = (require_supported_python-ok host).1 a.supported in
        let clean = (when_ok args.require_clean _ (require_clean_worktree-ok host)).1 a.clean in
        let composed = (unless_ok args.skip_compose _ (compose_with-ok host)).1 a.composed in
        rw (supported, clean, is_commit)
          (rw
            (
              Passes-run_check host _ a.tested,
              Passes-run_check host _ a.linted,
              Passes-run_check host _ a.formatted,
            )
            (rw (a.evidence, composed) refl)),
  )
