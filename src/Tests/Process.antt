-- ===== src/Tests/Process.antt =====
-- The theorems on the process at a sample host.
use software_distribution_pl.Prelude.{
  ℕ, zero, suc, String, string_eq, ◌==◌, true, none, some, [], ◌∷◌, if◌then◌else◌, ◌≡◌, refl,
  trim_space,
}
use software_distribution_pl.Connector.{Client, current_token}
use software_distribution_pl.Runner.{
  Host, connect, build_client, credential_file, ready, must_env, lacks_credentials, start_loop,
  Attempt, stops, fails, gave_up, shutdown,
}
use software_distribution_pl.Runner.Bearer.{IsBearing, connect-IsBearing}
use software_distribution_pl.Runner.Start.{Ends, start_loop-Ends}

abbrev variable : String → String
variable key =
    if key == "TARGET_NAME" then "edge-1" else if key == "HUB_GATEWAY_URL" then "wss://hub" else ""

-- A host with no token and a blank credential file.
abbrev blank_host : Host
blank_host = record {
  getenv = variable;
  read_file = λ path. some "\n";
  file_exists = λ path. true;
  parse_duration = λ text. none;
  runtime = record { goos = "linux"; goarch = "amd64"; version = "go1.25" };
  runner_version = "dev";
}

abbrev blank_client : Client
blank_client = build_client blank_host "wss://hub" "edge-1"

connects : connect blank_host ≡ ready blank_client
unfolding connect must_env lacks_credentials
connects = refl

connect-IsBearing_example : IsBearing blank_host blank_client
connect-IsBearing_example = connect-IsBearing blank_host blank_client connects

empty_bearer : current_token blank_client (blank_host.read_file (credential_file blank_host)) ≡ ""
unfolding current_token build_client trim_space
empty_bearer = refl

abbrev second_start : ℕ → Attempt
second_start (suc (suc zero)) = stops
second_start n = fails

start_loop-Ends_example : Ends second_start 1 9 (start_loop second_start)
start_loop-Ends_example = start_loop-Ends second_start

recovers : start_loop second_start ≡ some (record { end = shutdown; waits = 1 ∷ [] })
unfolding start_loop
recovers = refl

gives_up :
    start_loop (λ n. fails)
    ≡ some (record { end = gave_up; waits = 1 ∷ 2 ∷ 4 ∷ 8 ∷ 16 ∷ 32 ∷ 32 ∷ 32 ∷ 32 ∷ [] })
unfolding start_loop
gives_up = refl
