-- ===== src/ControlPlane/Provisioner/Deployed.antt =====
-- The whole of an installation that succeeds.
use compute_backend.Prelude.{List, [], ◌∷◌, ◌++◌, if◌then◌else◌}
use compute_backend.Strings.{Text, codes, text_eq}
use compute_backend.Strings.Trim.{trim_space}
use compute_backend.ControlPlane.Provisioner.Env.{Provisioner}
use compute_backend.ControlPlane.Provisioner.Remote.{Action, runs, Host, answer_of}

-- The answer to `whoami`, and what it means for the commands that follow.
abbrev pub sudo_of : Host → Text
sudo_of host =
    if text_eq (trim_space (answer_of (host.session [] (codes "whoami"))).0) (codes "root")
    then []
    else codes "sudo "

abbrev pub script_path : Text
script_path = codes "/tmp/vyvo/setup_runner_host.sh"

-- The steps behind the files.
abbrev pub service_steps : Text → List Action
service_steps sudo =
    runs (sudo ++ codes "bash /tmp/vyvo/setup_runner_host.sh")
    ∷ runs (sudo ++ codes "systemctl daemon-reload")
    ∷ runs (sudo ++ codes "systemctl restart vyvo-runners")
    ∷ []

abbrev is_active : Text → Action
is_active sudo = runs (sudo ++ codes "systemctl is-active vyvo-runners")
