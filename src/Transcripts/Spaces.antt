-- ===== src/Transcripts/Spaces.antt =====
-- internals/transcripts/spaces.go, and `extractSpacesKey` of service.go: the URL under which the
-- transcription service may fetch a recording. Of the URL the signature is left out, which
-- crypto/hmac computes from the rest.
use Prim.Native.Char.{code}
use Prim.Native.String
use Prim.Native.String.{String}
use text.Mathlib.Text.{starts_with}
use gotel_reserves.Base.{
  ℕ, suc, ◌+◌, ◌*◌, ◌/◌, ◌&&◌, ◌||◌, ◌==◌, nat_eq, string_eq, if◌then◌else◌, ltb,
}
use gotel_reserves.Backend.Rows.{second, minute}
use gotel_reserves.Backend.Exec.{M, pure, raise_if, not_configured, now, ◌>>=◌, ◌>>◌}

abbrev pub presign_min_ttl : ℕ
presign_min_ttl = 15 * minute

abbrev pub presign_max_ttl : ℕ
presign_max_ttl = 4 * 60 * minute

-- A duration that is not positive is 0 here.
unfoldable pub presign_ttl : ℕ → ℕ
presign_ttl duration =
    if duration == 0
    then 60 * minute
    else if ltb (duration * 2) presign_min_ttl
    then presign_min_ttl
    else if ltb presign_max_ttl (duration * 2)
    then presign_max_ttl
    else duration * 2

-- configs.SpacesConfig
pub record SpacesConfig : Type 0 where
  pub endpoint : String
  pub bucket : String

pub record PresignedUrl : Type 0 where
  pub object_url : String
  pub expires : ℕ

-- strings.TrimRight(s, "/")
unfoldable pub trim_slashes : String → String
trim_slashes String.[] = ""
trim_slashes (String.◌∷◌ c s) =
    let rest = trim_slashes s in if rest == "" && code c == b'/' then "" else String.◌∷◌ c rest

unfoldable pub with_scheme : String → String
with_scheme endpoint =
    if starts_with endpoint "http://" || starts_with endpoint "https://"
    then endpoint
    else String.◌++◌ "https://" endpoint

abbrev pub object_url : SpacesConfig → String → String
object_url cfg key =
    String.◌++◌ (with_scheme (trim_slashes cfg.endpoint))
      (String.◌++◌ "/" (String.◌++◌ cfg.bucket (String.◌++◌ "/" key)))

-- The object's URL is taken as it is: that url.Parse may refuse it, and writes it anew, is left out.
unfoldable pub presign_get : SpacesConfig → String → ℕ → M PresignedUrl
presign_get cfg key duration_hint = do
  raise_if (cfg.endpoint == "" || cfg.bucket == "") not_configured
  t ← now
  pure (record {
    object_url = object_url cfg key;
    expires = (t + presign_ttl duration_hint) / second;
  })

-- The loop of `extractSpacesKey`: what follows the third slash, or the whole text where there are
-- fewer. `slashes` counts those seen.
unfoldable pub after_third_slash : String → ℕ → String → String
after_third_slash whole slashes String.[] = whole
after_third_slash whole slashes (String.◌∷◌ c s) =
    let on_slash = after_third_slash whole (suc slashes) s in
    let on_other = after_third_slash whole slashes s in
    if code c == b'/' then (if slashes == 2 then s else on_slash) else on_other

unfoldable pub extract_spaces_key : String → String
extract_spaces_key file_url = if file_url == "" then "" else after_third_slash file_url 0 file_url
