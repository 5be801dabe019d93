-- ===== src/ModelControl/Profile/Attestation.antt =====
-- `ValidateSignedCLI` and `validSHA256`.
use Prim.Native.Char.{code}
use Prim.Native.String.{len}
use jacu_harness.Base.{
  ℕ, ◌+◌, ◌≡◌, ◌≢◌, String, Bool, true, false, not, ◌&&◌, ◌||◌, Option, none, some, arith, eq_iff,
  leb, if◌then◌else◌, ◌==◌, ℕ-comparable, String-comparable,
}
use jacu_harness.Base.Strings.{has_prefix, trim_prefix, trim_space}
use jacu_harness.ModelControl.Profile.{SignedCli, SignatureVerifier}

pub is_hex : ℕ → Bool
is_hex c = (leb b'0' c && leb c b'9') || (leb b'a' c && leb c b'f')

pub all_hex : String → Bool
unfolding is_hex
all_hex String.[] = true
all_hex (String.◌∷◌ c s) = is_hex (code c) && all_hex s

unfoldable pub valid_sha256 : String → Bool
unfolding all_hex
valid_sha256 value =
    if not (len value == 7 + 64) || not (has_prefix value "sha256:")
    then false
    else all_hex (trim_prefix value "sha256:")

pub data CliError : Type 0 where
  path_not_absolute bad_digest incomplete no_verifier attestation_failed : CliError

-- `filepath.IsAbs` is a leading slash on Unix. A nil verifier is `none`.
unfoldable pub validate_signed_cli : SignedCli → Option SignatureVerifier → Option CliError
validate_signed_cli cli verifier =
    if not (has_prefix cli.path "/")
    then some path_not_absolute
    else if not (valid_sha256 cli.sha256)
    then some bad_digest
    else if trim_space cli.signer == "" || trim_space cli.signature == ""
    then some incomplete
    else elim verifier [
      | none ↦ some no_verifier
      | some verify ↦ if not (verify cli) then some attestation_failed else none
    ]

-- What an attested binary is.
pub record IsAttested (cli : SignedCli) (verify : SignatureVerifier) : Type 0 where
  pub absolute : has_prefix cli.path "/" ≡ true
  pub digest : valid_sha256 cli.sha256 ≡ true
  pub signer_named : trim_space cli.signer ≢ ""
  pub signed : trim_space cli.signature ≢ ""
  pub verified : verify cli ≡ true

pub validate_signed_cli-IsAttested :
    (cli : SignedCli) (verify : SignatureVerifier)
    → validate_signed_cli cli (some verify) ≡ none
    → IsAttested cli verify
unfolding validate_signed_cli
validate_signed_cli-IsAttested cli verify h =
    ground (arith, eq_iff (trim_space cli.signer) "", eq_iff (trim_space cli.signature) "")

pub IsAttested-validate_signed_cli :
    (cli : SignedCli) (verify : SignatureVerifier)
    → IsAttested cli verify
    → validate_signed_cli cli (some verify) ≡ none
unfolding validate_signed_cli
IsAttested-validate_signed_cli cli verify a =
    ground (arith, eq_iff (trim_space cli.signer) "", eq_iff (trim_space cli.signature) "")
