-- ===== src/Connector/Token.antt =====
-- The bearer of a dial and the credential that the hub issues.
use software_distribution_pl.Prelude.{
  String, string_eq, ◌==◌, all_chars, is_solid, trim_space-solid, ◌≡◌, refl, true, false,
}
use software_distribution_pl.Connector.{Client, current_token, persist_credential}

-- If a credential file is set, a credential that is not empty and holds no white space is, once it
-- is stored, the bearer of the next dial.
pub current_token-persist_credential :
    (c : Client) (cred : String)
    → (c.credential_file == "") ≡ false
    → (cred == "") ≡ false
    → all_chars is_solid cred ≡ true
    → current_token c (persist_credential c cred) ≡ cred
unfolding current_token persist_credential
current_token-persist_credential c cred f n h =
    rw (f, persist_credential)
      (rw (n, persist_credential) (rw (trim_space-solid cred h) (rw n refl)))
