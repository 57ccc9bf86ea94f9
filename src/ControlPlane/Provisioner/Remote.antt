-- ===== src/ControlPlane/Provisioner/Remote.antt =====
-- What provisioner.go does on the host of a node over SSH and SFTP. The host is an argument: what it answers
-- may depend on all that was done before, which is kept as a list.
use compute_backend.Prelude.{ℕ, suc, Option, none, some, List, [], ◌∷◌, ◌++◌, if◌then◌else◌, drop}
use compute_backend.Strings.{Text, codes, slash, is_empty}
use compute_backend.Strings.Trim.{trim_space, trim_right}
use compute_backend.Strings.Digits.{digits}
use compute_backend.Strings.Search.{last_index}
use compute_backend.ControlPlane.Provisioner.Env.{dir_name}

pub data Action : Type 0 where
  runs : Text → Action
  opens_sftp : Action
  makes_dir creates : Text → Action
  writes : Text → Text → Action
  chmods : Text → ℕ → Action

-- What becomes of a session: none is opened, the context ends first, or the command exits; then with its two
-- outputs, and an error where it failed.
pub data Session : Type 0 where
  no_session timed_out : Text → Session
  exited : Text → Text → Option Text → Session

pub record Host : Type 0 where
  pub session : List Action → Text → Session
  pub step : List Action → Action → Option Text

-- `runCommand`: the output and the error.
unfoldable pub answer_of : Session → Text × Option Text
answer_of (no_session e) = ([], some e)
answer_of (timed_out e) = ([], some e)
answer_of (exited stdout stderr (some e)) = (stdout, some (e ++ codes ": " ++ trim_space stderr))
answer_of (exited stdout stderr none) = (trim_space stdout, none)

unfoldable pub run_command : Host → Text → List Action → (Text × Option Text) × List Action
unfolding answer_of
run_command host command done = (answer_of (host.session done command), done ++ runs command ∷ [])

-- The steps of SFTP, up to the first that fails.
unfoldable pub run_steps : Host → List Action → List Action → Option Text × List Action
run_steps host [] done = (none, done)
run_steps host (step ∷ steps) done = elim (host.step done step) [
  | some e ↦ (some e, done ++ step ∷ [])
  | none ↦ run_steps host steps (done ++ step ∷ [])
]

abbrev pub push_steps : Text → Text → ℕ → List Action
push_steps path content perm =
    opens_sftp
    ∷ makes_dir (dir_name path)
    ∷ creates path
    ∷ writes path content
    ∷ chmods path perm
    ∷ []

unfoldable pub push_file : Host → Text → Text → ℕ → List Action → Option Text × List Action
push_file host path content perm = run_steps host (push_steps path content perm)

-- `quote` is the verb `%q`.
unfoldable pub run_commands :
    (Text → Text) → Host → List Text → List Action → Option Text × List Action
unfolding run_command
run_commands quote host [] done = (none, done)
run_commands quote host (command ∷ commands) done =
    let (answer, after) = run_command host command done in
    elim answer.1 [
      | some e ↦ (some (codes "failed to execute " ++ quote command ++ codes ": " ++ e), after)
      | none ↦ run_commands quote host commands after
    ]

-- A file mode has 32 bits, so eleven octal digits are enough.
unfoldable pub octal : ℕ → Text
octal n = digits 8 11 n []

unfoldable pub file_base : Text → Text
file_base path =
    let stripped = trim_right path (slash ∷ []) in
    if is_empty path
    then codes "."
    else if is_empty stripped
    then slash ∷ []
    else elim (last_index stripped slash) [ none ↦ stripped | some i ↦ drop (suc i) stripped ]

abbrev pub tmp_path_of : Text → Text
tmp_path_of path = codes "/tmp/vyvo_" ++ file_base path

unfoldable pub sudo_commands : Text → Text → ℕ → List Text
unfolding octal
sudo_commands sudo path perm =
    (sudo ++ codes "mkdir -p " ++ dir_name path)
    ∷ (sudo ++ codes "mv " ++ tmp_path_of path ++ codes " " ++ path)
    ∷ (sudo ++ codes "chmod " ++ octal perm ++ codes " " ++ path)
    ∷ (sudo ++ codes "chown vyvo:vyvo " ++ path)
    ∷ []

unfoldable pub push_file_with_sudo :
    (Text → Text) → Host → Text → Text → ℕ → Text → List Action → Option Text × List Action
unfolding push_file run_commands
push_file_with_sudo quote host path content perm sudo done =
    if is_empty sudo
    then push_file host path content perm done
    else (let (failure, after) = push_file host (tmp_path_of path) content perm done in
        elim failure [
          | some e ↦ (some e, after)
          | none ↦ run_commands quote host (sudo_commands sudo path perm) after
        ])
