-- ===== src/Deployment/Normalize.antt =====
-- `normalizeDeployment` and the checks that it calls.
use Prim.Native.Char.{Char, code}
use qiniu_ci_runner.Prelude.{
  ℕ, String, Bool, true, false, not, ◌&&◌, ◌||◌, Result, ok, err, invalid, expiry_required,
  invalid_page, ensure, ◌>>◌, trim_space, is_empty, str_eq, ◌==◌, leb, ltb, if◌then◌else◌,
  has_control, byte_len, contains_char, cut, ℤ, pos, negsuc,
}
use qiniu_ci_runner.Request.Types.{is_zero}
use qiniu_ci_runner.Deployment.Types.{Status, other, Deployment}
use qiniu_ci_runner.Deployment.Paths.{clean, is_abs}

-- `\s`
abbrev is_blank : Char → Bool
is_blank c =
    (leb 9 (code c) && leb (code c) 10) || ((leb 12 (code c) && leb (code c) 13) || (code c == 32))

abbrev is_name_part : String → Bool
is_name_part String.[] = true
is_name_part (String.◌∷◌ c s) = not (is_blank c || (code c == 47)) && is_name_part s

-- `^[^/\s]+/[^/\s]+$`
unfoldable pub is_repository : String → Bool
unfolding cut
is_repository name =
    let (owner, repository, found) = cut 47 name in
    found
    && (not (is_empty owner)
        && (not (is_empty repository) && (is_name_part owner && is_name_part repository)))

abbrev is_lower_hex : String → Bool
is_lower_hex String.[] = true
is_lower_hex (String.◌∷◌ c s) =
    ((leb 48 (code c) && leb (code c) 57) || (leb 97 (code c) && leb (code c) 102))
    && is_lower_hex s

-- 40 or 64 hexadecimal digits in lower case.
unfoldable pub valid_deployment_commit : String → Bool
valid_deployment_commit value =
    let text = trim_space value in
    ((byte_len text == 40) || (byte_len text == 64)) && is_lower_hex text

abbrev pub valid_deployment_status : Status → Bool
valid_deployment_status (other _) = false
valid_deployment_status _ = true

abbrev pub is_unset : Status → Bool
is_unset (other s) = is_empty s
is_unset _ = false

abbrev starts_up : String → Bool
starts_up String.[] = false
starts_up (String.◌∷◌ c String.[]) = false
starts_up (String.◌∷◌ c (String.◌∷◌ d String.[])) = false
starts_up (String.◌∷◌ c (String.◌∷◌ d (String.◌∷◌ e s))) =
    (code c == 46) && ((code d == 46) && (code e == 47))

abbrev bad_config_path : String → Bool
bad_config_path p =
    str_eq p "."
    || (ltb 1024 (byte_len p)
        || (has_control p
            || (is_abs p || (starts_up p || (str_eq p ".." || contains_char b'\\' p)))))

abbrev bad_text : ℕ → String → Bool
bad_text limit s = ltb limit (byte_len s) || has_control s

-- The texts of a deployment trimmed, and its path cleaned.
abbrev pub normal_form : Deployment → Deployment
normal_form d = record d {
  id = trim_space d.id;
  scope_type = trim_space d.scope_type;
  repository_full_name = trim_space d.repository_full_name;
  ref = trim_space d.ref;
  commit_sha = trim_space d.commit_sha;
  config_path = clean (trim_space d.config_path);
  deployment_template_name = trim_space d.deployment_template_name;
}

-- The checks, in their order, on a normal form.
unfoldable pub check_deployment : Deployment → Result (Unit {0})
unfolding is_repository valid_deployment_commit
check_deployment d = do
  ensure (not (is_empty d.id || bad_text 128 d.id)) (invalid "deployment id is invalid")
  ensure
      (not (
        (d.account_id == 0)
        || ((d.scope_id == 0) || ((d.github_installation_id == 0) || (d.repository_id == 0)))))
      (invalid "deployment ownership is invalid")
  ensure (str_eq d.scope_type "account" || str_eq d.scope_type "github_installation")
      (invalid "deployment scope is invalid")
  ensure (is_repository d.repository_full_name && not (has_control d.repository_full_name))
      (invalid "deployment repository is invalid")
  ensure (not (is_empty d.ref || bad_text 256 d.ref)) (invalid "deployment ref is invalid")
  ensure (valid_deployment_commit d.commit_sha) (invalid "deployment commit is invalid")
  ensure (not (bad_config_path d.config_path)) (invalid "deployment config path is invalid")
  ensure
      (not (
        (d.snapshot_version == 0)
        || (is_empty (trim_space d.spec_hash) || is_empty (trim_space d.spec_json_encrypted))))
      (invalid "deployment plan evidence is incomplete")
  ensure (valid_deployment_status d.status || is_unset d.status)
      (invalid "deployment status is invalid")
  ensure (not (bad_text 256 d.deployment_template_name))
      (invalid "deployment template name is invalid")
  ensure (not (is_zero d.expires_at)) expiry_required

unfoldable pub normalize_deployment : Deployment → Result Deployment
unfolding check_deployment
normalize_deployment d = do check_deployment (normal_form d); ok (normal_form d)

-- A limit of 0 stands for 100.
unfoldable pub normalize_deployment_pagination : ℤ → ℤ → Result (ℕ × ℕ)
normalize_deployment_pagination (pos limit) (pos offset) =
    let size = if limit == 0 then 100 else limit in
    if ltb 500 size then err invalid_page else ok (size, offset)
normalize_deployment_pagination (pos limit) (negsuc _) = err invalid_page
normalize_deployment_pagination (negsuc _) offset = err invalid_page
