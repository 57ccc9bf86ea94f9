-- ===== src/ControlPlane/Provisioner/Install.antt =====
-- `provision` and what it calls: one run in the background, on a repository that is an interface. The
-- readings of the clock and the event ids are the repository's; the signer files of the machine, `ssh.Dial`
-- and the YAML encoder are arguments.
use compute_backend.Prelude.{
  ℕ, suc, Option, none, some, List, [], ◌∷◌, ◌++◌, if◌then◌else◌, Result, ok, err, pos, negsuc,
}
use compute_backend.Strings.{Text, codes, text_eq, is_empty}
use compute_backend.Strings.Digits.{digits}
use compute_backend.Strings.Affix.{contains}
use compute_backend.Strings.Trim.{trim_space}
use compute_backend.ControlPlane.Types.{NodeStatus, provisioning, ready, error, Node}
use compute_backend.ControlPlane.Provisioner.Env.{Provisioner, build_global_env, build_qwen_env}
use compute_backend.ControlPlane.Provisioner.Compose.{
  ComposeFile, Images, runner_env, qwen_env, has_qwen, compose_for_node,
}
use compute_backend.ControlPlane.Provisioner.Remote.{
  Action, Host, run_command, push_file, push_file_with_sudo,
}

-- The methods of `Repository` that the provisioner calls. An update returns its error.
pub record Repository (S : Type 0) : Type 0 where
  pub get_node : Text → S → Option Node
  pub update_status : Text → NodeStatus → Text → S → Option Text × S
  pub append_event : Text → NodeStatus → Text → S → S

pub data AuthMethod (Signer : Type 0) : Type 0 where
  public_keys : Signer → AuthMethod Signer
  password : Text → AuthMethod Signer

-- What is called of Go's run time and of the packages for SSH and YAML: the environment, the readings of
-- the clock by the two environment files as they are printed, `%q`, the encoder, the keys and the connection to an address with a user and its methods.
pub record Outside (Signer : Type 0) : Type 0 where
  pub getenv : Text → Text
  pub now : ℕ → Text
  pub quote : Text → Text
  pub marshal : ComposeFile → Result Text Text
  pub parse_private_key : Text → Result Text Signer
  pub default_signer : Result Text Signer
  pub dial : Text → Text → List (AuthMethod Signer) → Result Text Host

module _ {S Signer : Type 0} (repo : Repository S) (outside : Outside Signer) (p : Provisioner)
    (images : Images) where
  unfoldable pub build_auth_methods : Node → Result Text (List (AuthMethod Signer))
  build_auth_methods node =
      let key = trim_space node.ssh_private_key in
      let pass = trim_space node.ssh_password in
      let with_password : List (AuthMethod Signer) =
        if is_empty pass then [] else password pass ∷ [] in
      if is_empty key
      then (if is_empty pass
          then elim outside.default_signer [
            | err e ↦ err (codes "no authentication method provided: " ++ e)
            | ok signer ↦ ok (public_keys signer ∷ [])
          ]
          else ok with_password)
      else elim (outside.parse_private_key key) [
        | err e ↦ err (codes "parse ssh private key: " ++ e)
        | ok signer ↦ ok (public_keys signer ∷ with_password)
      ]

  -- The second file, for a node with a Qwen model.
  unfoldable pub write_qwen_env : Host → Node → Text → List Action → Option Text × List Action
  write_qwen_env host node sudo done =
      if has_qwen node
      then push_file_with_sudo outside.quote host qwen_env
          (build_qwen_env outside.getenv (outside.now 1) node) 384 sudo done
      else (none, done)

  -- The modes are 0o600, 0o600 and 0o640.
  unfoldable pub write_runner_files : Host → Node → Text → List Action → Option Text × List Action
  unfolding write_qwen_env
  write_runner_files host node sudo done =
      let (failure, after) =
        push_file_with_sudo outside.quote host runner_env (build_global_env p (outside.now 0) node)
          384 sudo done in
      elim failure [
        | some e ↦ (some e, after)
        | none ↦
            let (failure', after') = write_qwen_env host node sudo after in
            elim failure' [
              | some e ↦ (some e, after')
              | none ↦ elim (outside.marshal (compose_for_node images node)) [
                | err e ↦ (some e, after')
                | ok bytes ↦
                    push_file_with_sudo outside.quote host (codes "/opt/vyvo/docker-compose.yml")
                      bytes 416 sudo after'
              ]
            ]
      ]

  -- The loop over the steps: a message and a command each.
  unfoldable pub install_steps :
      Host → Text → List (Text × Text) → List Action → S → Option Text × List Action × S
  install_steps host id [] done s = (none, done, s)
  install_steps host id ((message, command) ∷ steps) done s =
      let t = repo.append_event id provisioning message s in
      let (answer, after) = run_command host command done in
      elim answer.1 [
        | some e ↦ (some (message ++ codes ": " ++ e), after, t)
        | none ↦ install_steps host id steps after t
      ]

  abbrev pub steps_of : Text → List (Text × Text)
  steps_of sudo =
      (codes "Running setup script", sudo ++ codes "bash /tmp/vyvo/setup_runner_host.sh")
      ∷ (codes "Reloading runner service", sudo ++ codes "systemctl daemon-reload")
      ∷ (codes "Restarting runner", sudo ++ codes "systemctl restart vyvo-runners")
      ∷ []

  -- The end of `installRunner`: is the service active?
  unfoldable pub check_runner : Host → Text → List Action → Option Text × List Action
  check_runner host sudo done =
      let (answer, after) =
        run_command host (sudo ++ codes "systemctl is-active vyvo-runners") done in
      elim answer.1 [
        | some e ↦ (some (codes "runner status check failed: " ++ e), after)
        | none ↦
            if contains answer.0 (codes "active")
            then (none, after)
            else (let (logs, after') =
                  run_command host (sudo ++ codes "journalctl -u vyvo-runners --no-pager -n 50")
                    after in
                (some (codes "runner inactive: " ++ logs.0), after'))
      ]

  unfoldable pub install_files :
      Host → Node → Text → List Action → S → Option Text × List Action × S
  unfolding write_runner_files install_steps check_runner
  install_files host node sudo done s =
      let (failure, after) =
        push_file host (codes "/tmp/vyvo/setup_runner_host.sh") p.script_body 493 done in
      elim failure [
        | some e ↦ (some (codes "upload setup script: " ++ e), after, s)
        | none ↦
            let t =
              repo.append_event node.id provisioning (codes "Writing model configuration") s in
            let (failure', after') = write_runner_files host node sudo after in
            elim failure' [
              | some e ↦ (some e, after', t)
              | none ↦
                  let (failure'', after'', u) =
                    install_steps host node.id (steps_of sudo) after' t in
                  elim failure'' [
                    | some e ↦ (some e, after'', u)
                    | none ↦
                        let (result, final) = check_runner host sudo after'' in (result, final, u)
                  ]
            ]
      ]

  unfoldable pub install_runner : Host → Node → S → Option Text × List Action × S
  unfolding install_files
  install_runner host node s =
      let (whoami, done) = run_command host (codes "whoami") [] in
      elim whoami.1 [
        | some e ↦ (some (codes "check user: " ++ e), done, s)
        | none ↦
            install_files host node
              (if text_eq (trim_space whoami.0) (codes "root") then [] else codes "sudo ") done s
      ]

  -- An error of the update is only logged.
  unfoldable pub fail : Text → Text → S → S
  fail id e s = (repo.update_status id error e s).1

  unfoldable pub address : Node → Text
  address node = node.ip_address ++ codes ":" ++ elim node.ssh_port [
    | pos n ↦ digits 10 20 n []
    | negsuc n ↦ codes "-" ++ digits 10 20 (suc n) []
  ]

  -- The attempt proper, from the authentication on.
  unfoldable pub connect : Node → S → Option Text × S
  unfolding build_auth_methods install_runner address
  connect node s = elim (build_auth_methods node) [
    | err e ↦ (some e, s)
    | ok methods ↦ elim (outside.dial (address node) node.ssh_username methods) [
      | err e ↦ (some (codes "ssh dial failed: " ++ e), s)
      | ok host ↦ let (failure, done, t) = install_runner host node s in (failure, t)
    ]
  ]

  unfoldable pub provision : Text → S → S
  unfolding connect fail
  provision id s = elim (repo.get_node id s) [
    | none ↦ s
    | some node ↦
        let (refused, t) = repo.update_status id provisioning (codes "Connecting to node") s in
        elim refused [
          | some e ↦ t
          | none ↦
              let (failure, u) = connect node t in
              elim failure [
                | some e ↦ fail id e u
                | none ↦ (repo.update_status id ready (codes "Runner online") u).1
              ]
        ]
  ]
