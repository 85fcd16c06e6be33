-- ===== src/Runner/Bearer.antt =====
-- The bearer of the client that the process connects with.
use software_distribution_pl.Prelude.{
  String, string_eq, ◌==◌, trim_space, ◌≡◌, refl, subst, Bool, true, false, not, ◌&&◌, Bool-cases,
  inl, inr, Option, none, some, if◌then◌else◌, arith,
}
use software_distribution_pl.Connector.{Client, current_token}
use software_distribution_pl.Runner.{
  Host, Startup, fatal, ready, credential_file, must_env, lacks_credentials, build_client, with_hub,
  with_target, connect,
}

-- A credential file that gives no credential.
abbrev pub is_unusable : (file : Option String) → Bool
is_unusable none = true
is_unusable (some text) = trim_space text == ""

-- A client whose credential file has a name.
client_bearer :
    (c : Client) (file : Option String)
    → (c.credential_file == "") ≡ false
    → (current_token c file == "")
      ≡ ((c.auth_token == "" && c.enroll_token == "") && is_unusable file)
unfolding current_token
client_bearer c none n = elim (Bool-cases (c.enroll_token == "")) [
  | inl t ↦ ground arith
  | inr f ↦ ground arith
]
client_bearer c (some text) n = elim (Bool-cases (trim_space text == "")) [
  | inl b ↦ elim (Bool-cases (c.enroll_token == "")) [ inl t ↦ ground arith | inr f ↦ ground arith ]
  | inr s ↦ ground arith
]

or_named : (v f : String) → (f == "") ≡ false → ((if not (v == "") then v else f) == "") ≡ false
or_named v f h = elim (Bool-cases (v == "")) [ inl e ↦ rw e h | inr e ↦ rw e e ]

module _ (host : Host) where
  -- Neither of the two variables that hold a token is set.
  abbrev pub has_no_token : Bool
  has_no_token = host.getenv "TARGET_AUTH_TOKEN" == "" && host.getenv "SDP_ENROLL_TOKEN" == ""

  file_named : (credential_file host == "") ≡ false
  file_named = or_named (host.getenv "SDP_RUNNER_CREDENTIAL_FILE") "/etc/sdp-runner/credential" refl

  build_client-bearer :
      (hub_url target_name : String) (file : Option String)
      → (current_token (build_client host hub_url target_name) file == "")
        ≡ (has_no_token && is_unusable file)
  unfolding build_client
  build_client-bearer hub_url target_name file =
      elim (Bool-cases
        (not (host.getenv "TARGET_VENDOR" == "") && not (host.getenv "TARGET_REGION" == ""))) [
          | inl t ↦ rw t (client_bearer _ file file_named)
          | inr f ↦ rw f (client_bearer _ file file_named)
        ]

  -- What is promised of the client of a process that starts.
  abbrev pub IsBearing : Client → Type 0
  IsBearing c =
      ((file : Option String) → (current_token c file == "") ≡ (has_no_token && is_unusable file))
      × ((has_no_token && not (host.file_exists (credential_file host))) ≡ false)

  built_client :
      (hub_url target_name : String) (c : Client)
      → lacks_credentials host ≡ false
      → ready (build_client host hub_url target_name) ≡ ready c
      → IsBearing c
  unfolding lacks_credentials
  built_client hub_url target_name c l e =
      let same : build_client host hub_url target_name ≡ c = cc in
      subst IsBearing same (build_client-bearer hub_url target_name, l)

  with_hub-IsBearing :
      (target_name : String) (hub_url : Startup String) (c : Client)
      → lacks_credentials host ≡ false
      → with_hub host target_name hub_url ≡ ready c
      → IsBearing c
  with_hub-IsBearing target_name (fatal message) c l e = ground arith
  with_hub-IsBearing target_name (ready hub_url) c l e = built_client hub_url target_name c l e

  checked-IsBearing :
      (lacking : Bool) (target_name : String) (hub_url : Startup String) (c : Client)
      → lacks_credentials host ≡ lacking
      → (if lacking then fatal "no credentials available" else with_hub host target_name hub_url)
        ≡ ready c
      → IsBearing c
  checked-IsBearing true target_name hub_url c l e = ground arith
  checked-IsBearing false target_name hub_url c l e = with_hub-IsBearing target_name hub_url c l e

  with_target-IsBearing :
      (target_name hub_url : Startup String) (c : Client)
      → with_target host target_name hub_url ≡ ready c
      → IsBearing c
  with_target-IsBearing (fatal message) hub_url c e = ground arith
  with_target-IsBearing (ready target_name) hub_url c e =
      checked-IsBearing (lacks_credentials host) target_name hub_url c refl e

  -- The client that the process connects with has an empty bearer exactly if no token is set and
  -- the credential file, whatever it holds at the dial, cannot be read or is blank; and a process
  -- with no token starts only if the file exists.
  pub connect-IsBearing : (c : Client) → connect host ≡ ready c → IsBearing c
  unfolding connect
  connect-IsBearing c e =
      with_target-IsBearing (must_env host "TARGET_NAME") (must_env host "HUB_GATEWAY_URL") c e
