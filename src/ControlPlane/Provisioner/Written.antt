-- ===== src/ControlPlane/Provisioner/Written.antt =====
-- The actions of a provisioning that succeeds.
use compute_backend.Prelude.{
  ℕ, ◌≡◌, sym, ap, ◌∙◌, inl, inr, Bool, true, false, none, List, [], ◌∷◌, ◌++◌, map, append_assoc,
  append-nil, arith, if◌then◌else◌, any, ◌||◌, refl, ok, Option-cases, Result-cases,
}
use compute_backend.Strings.{Text, codes, is_empty}
use compute_backend.Strings.Fold.{equal_fold}
use compute_backend.ControlPlane.Types.{Node}
use compute_backend.ControlPlane.Provisioner.Env.{
  Provisioner, build_global_env, build_qwen_env, dir_name, has_model,
}
use compute_backend.ControlPlane.Provisioner.Compose.{
  Images, runner_env, qwen_env, has_qwen, compose_for_node,
}
use compute_backend.ControlPlane.Provisioner.Remote.{
  Action, runs, Host, push_steps, tmp_path_of, sudo_commands, opens_sftp, makes_dir, creates,
  writes, chmods, octal, file_base, answer_of, run_command, run_steps, push_file, run_commands,
  push_file_with_sudo,
}
use compute_backend.ControlPlane.Provisioner.Install.{
  Repository, Outside, write_runner_files, write_qwen_env,
}

run_steps_ok :
    (host : Host) (steps done : List Action)
    → (run_steps host steps done).0 ≡ none
    → (run_steps host steps done).1 ≡ done ++ steps
unfolding run_steps
run_steps_ok host [] done h = sym (append-nil done)
run_steps_ok host (step ∷ steps) done h = elim (Option-cases (host.step done step)) [
  | inr (e, failed) ↦ ground arith
  | inl fine ↦
      ground
        (arith, run_steps_ok host steps (done ++ step ∷ []), append_assoc done (step ∷ []) steps)
]

run_commands_ok :
    (quote : Text → Text) (host : Host) (commands : List Text) (done : List Action)
    → (run_commands quote host commands done).0 ≡ none
    → (run_commands quote host commands done).1 ≡ done ++ map runs commands
unfolding run_commands run_command
run_commands_ok quote host [] done h = sym (append-nil done)
run_commands_ok quote host (command ∷ commands) done h =
    elim (Option-cases (answer_of (host.session done command)).1) [
      | inr (e, failed) ↦ ground arith
      | inl fine ↦ ground (
        arith,
        run_commands_ok quote host commands (done ++ runs command ∷ []),
        append_assoc done (runs command ∷ []) (map runs commands),
      )
    ]

-- The actions that write a file and set its mode.
abbrev pub writing : Text → Text → ℕ → List Action
writing path content perm =
    opens_sftp
    ∷ makes_dir (dir_name path)
    ∷ creates path
    ∷ writes path content
    ∷ chmods path perm
    ∷ []

-- The actions that move a file into place with `sudo` and set its mode and its owner.
abbrev pub moving : Text → Text → Text → ℕ → List Action
moving sudo from path perm =
    runs (sudo ++ codes "mkdir -p " ++ dir_name path)
    ∷ runs (sudo ++ codes "mv " ++ from ++ codes " " ++ path)
    ∷ runs (sudo ++ codes "chmod " ++ octal perm ++ codes " " ++ path)
    ∷ runs (sudo ++ codes "chown vyvo:vyvo " ++ path)
    ∷ []

-- A file with its mode, and the actions that put it in place: directly, or under /tmp and moved with `sudo`.
abbrev pub File : Type 0
File = Text × Text × ℕ

unfoldable pub placing : Text → File → List Action
placing sudo (path, content, perm) =
    let tmp = codes "/tmp/vyvo_" ++ file_base path in
    if is_empty sudo
    then writing path content perm
    else writing tmp content perm ++ moving sudo tmp path perm

pub push_file_ok :
    (host : Host) (path content : Text) (perm : ℕ) (done : List Action)
    → (push_file host path content perm done).0 ≡ none
    → (push_file host path content perm done).1 ≡ done ++ push_steps path content perm
unfolding push_file
push_file_ok host path content perm done h = run_steps_ok host (push_steps path content perm) done h

push_file_with_sudo_ok :
    (quote : Text → Text) (host : Host) (path content : Text) (perm : ℕ) (sudo : Text)
    (done : List Action)
    → (push_file_with_sudo quote host path content perm sudo done).0 ≡ none
    → (push_file_with_sudo quote host path content perm sudo done).1
      ≡ done ++ placing sudo (path, content, perm)
unfolding push_file_with_sudo placing sudo_commands
push_file_with_sudo_ok quote host path content perm sudo done h =
    let tmp = tmp_path_of path in
    let commands = sudo_commands sudo path perm in
    let after = (push_file host tmp content perm done).1 in
    ground (
      arith,
      push_file_ok host path content perm done,
      push_file_ok host tmp content perm done,
      run_commands_ok quote host commands after,
      append_assoc done (push_steps tmp content perm) (map runs commands),
    )

-- One of the node's models is a Qwen model, up to case.
unfoldable pub wants_qwen : Node → Bool
wants_qwen node =
    any
      (λ model.
        equal_fold model (codes "qwen-image") || equal_fold model (codes "qwen-image-dashscope"))
      node.models

has_model-any :
    (models : List Text) (a b : Text)
    → (has_model models a || has_model models b)
      ≡ any (λ model. equal_fold model a || equal_fold model b) models
unfolding has_model
has_model-any [] a b = refl
has_model-any (model ∷ models) a b = ground (arith, has_model-any models a b)

pub has_qwen_lem : (node : Node) → has_qwen node ≡ wants_qwen node
unfolding has_qwen wants_qwen
has_qwen_lem node = has_model-any node.models (codes "qwen-image") (codes "qwen-image-dashscope")

-- The files of a node.
abbrev pub files_of : {Signer : Type 0} → Outside Signer → Provisioner → Node → Text → List File
files_of outside p node bytes =
    (runner_env, build_global_env p (outside.now 0) node, 384)
      ∷ (if wants_qwen node
          then (qwen_env, build_qwen_env outside.getenv (outside.now 1) node, 384) ∷ []
          else [])
    ++ (codes "/opt/vyvo/docker-compose.yml", bytes, 416) ∷ []

unfoldable pub placing_all : Text → List File → List Action
placing_all sudo [] = []
placing_all sudo (file ∷ files) = placing sudo file ++ placing_all sudo files

abbrev compose_path : Text
compose_path = codes "/opt/vyvo/docker-compose.yml"

placing_if :
    (b : Bool) (sudo : Text) (f g h : File)
    → placing_all sudo (f ∷ (if b then g ∷ [] else []) ++ h ∷ [])
      ≡ placing sudo f ++ (if b then placing sudo g else []) ++ placing sudo h
unfolding placing_all
placing_if true sudo f g h =
    ap (λ l. placing sudo f ++ (placing sudo g ++ l)) (append-nil (placing sudo h))
    ∙ sym (append_assoc (placing sudo f) (placing sudo g) (placing sudo h))
placing_if false sudo f g h =
    ap (λ l. placing sudo f ++ l) (append-nil (placing sudo h))
    ∙ ap (λ l. l ++ placing sudo h) (sym (append-nil (placing sudo f)))

module _ {S Signer : Type 0} (repo : Repository S) (outside : Outside Signer) (p : Provisioner)
    (images : Images) where
  write_qwen_env_ok :
      (host : Host) (node : Node) (sudo : Text) (done : List Action)
      → (write_qwen_env repo outside p images host node sudo done).0 ≡ none
      → (write_qwen_env repo outside p images host node sudo done).1
        ≡ done
          ++ (if wants_qwen node
              then placing sudo (qwen_env, build_qwen_env outside.getenv (outside.now 1) node, 384)
              else [])
  unfolding write_qwen_env
  write_qwen_env_ok host node sudo done h = ground (
    arith,
    push_file_with_sudo_ok outside.quote host qwen_env
        (build_qwen_env outside.getenv (outside.now 1) node) 384 sudo done,
    append-nil done,
    has_qwen_lem node,
  )

  -- Writing the files of a node without an error does exactly the actions that put each file in its place, in
  -- order and with its mode: the environment, that of Qwen only for a node with a Qwen model, and the compose
  -- file, which could be encoded.
  pub write_runner_files_ok :
      (host : Host) (node : Node) (sudo : Text) (done : List Action)
      → (write_runner_files repo outside p images host node sudo done).0 ≡ none
      → (bytes : Text) × (outside.marshal (compose_for_node images node) ≡ ok bytes)
        × ((write_runner_files repo outside p images host node sudo done).1
            ≡ done ++ placing_all sudo (files_of outside p node bytes))
  unfolding write_runner_files
  write_runner_files_ok host node sudo done h =
      elim (Result-cases (outside.marshal (compose_for_node images node))) [
        | inl (bytes, marshalled) ↦
            let quote = outside.quote in
            let env = build_global_env p (outside.now 0) node in
            let a = (push_file_with_sudo quote host runner_env env 384 sudo done).1 in
            let b = (write_qwen_env repo outside p images host node sudo a).1 in
            let one = placing sudo (runner_env, env, 384) in
            let two =
              if wants_qwen node
              then placing sudo (qwen_env, build_qwen_env outside.getenv (outside.now 1) node, 384)
              else [] in
            let three = placing sudo (compose_path, bytes, 416) in
            (
              bytes,
              marshalled,
              ground (
                arith,
                push_file_with_sudo_ok quote host runner_env env 384 sudo done,
                write_qwen_env_ok host node sudo a,
                push_file_with_sudo_ok quote host compose_path bytes 416 sudo b,
                append_assoc done one two,
                append_assoc done (one ++ two) three,
                append_assoc one two three,
                placing_if (wants_qwen node) sudo (runner_env, env, 384)
                    (qwen_env, build_qwen_env outside.getenv (outside.now 1) node, 384)
                    (compose_path, bytes, 416),
              ),
            )
        | inr (e, failed) ↦ ground arith
      ]
