-- ===== src/Transcripts/Urls.antt =====
-- The keys and the lifetimes of the URLs of recordings (internals/transcripts/spaces.go and
-- `extractSpacesKey` of service.go).
use Prim.Native.Char.{Char, code}
use text.Mathlib.TextLemmas.{nil-append, cons-append}
use Prim.Native.String
use Prim.Native.String.{String}
use gotel_reserves.Base.{
  ℕ, ◌+◌, ◌*◌, ◌/◌, min, max, if◌then◌else◌, ◌≡◌, ◌≢◌, refl, eq_iff, Bool-cases, inl, inr, ap, ◌∙◌,
  Bool, true, false, arith, ◌==◌, nat_eq, string_eq,
}
use gotel_reserves.Backend.Rows.{second, minute}
use gotel_reserves.Backend.Exec.{World, ok, raise_if, pure, now, ◌>>=◌}
use gotel_reserves.Transcripts.Spaces.{
  SpacesConfig, PresignedUrl, presign_get, presign_ttl, after_third_slash, extract_spaces_key,
}

-- A URL that is handed out is good for twice the duration of the recording, but for 15 minutes at least
-- and for 4 hours at most, and for an hour where no duration is known; it expires at a whole second.
pub presign_get_expiry :
    (cfg : SpacesConfig) (key : String) (duration : ℕ) (w w' : World) (url : PresignedUrl)
    → presign_get cfg key duration w ≡ (ok url, w')
    → url.expires
      ≡ (w'.clock
          + (if duration == 0
              then 60 * minute
              else max (15 * minute) (min (4 * 60 * minute) (duration * 2))))
        / second
unfolding presign_get presign_ttl raise_if pure now ◌>>=◌
presign_get_expiry cfg key duration w w' url h = ground arith

-- No character of the text is a slash.
abbrev pub SlashFree : String → Type 0
SlashFree String.[] = Unit
SlashFree (String.◌∷◌ c s) = (code c ≢ b'/') × SlashFree s

-- Texts as they compute.
slash : (key : String) → String.◌++◌ "/" key ≡ String.◌∷◌ "/" key
slash key = cons-append "/" "" key ∙ ap (λ s. String.◌∷◌ "/" s) (nil-append key)

scheme :
    (rest : String)
    → String.◌++◌ "https://" rest
      ≡ String.◌∷◌ "h" (
          String.◌∷◌ "t" (
            String.◌∷◌ "t" (
              String.◌∷◌ "p"
                (String.◌∷◌ "s" (String.◌∷◌ ":" (String.◌∷◌ "/" (String.◌∷◌ "/" rest)))))))
scheme rest =
    rw
      (
        cons-append "h" "ttps://" rest,
        cons-append "t" "tps://" rest,
        cons-append "t" "ps://" rest,
        cons-append "p" "s://" rest,
        cons-append "s" "://" rest,
        cons-append ":" "//" rest,
        cons-append "/" "/" rest,
        slash rest,
      )
      refl

after_third_slash-host :
    (whole host key : String)
    → SlashFree host
    → after_third_slash whole 2 (String.◌++◌ host (String.◌++◌ "/" key)) ≡ key
unfolding after_third_slash
after_third_slash-host whole String.[] key h = rw (nil-append (String.◌++◌ "/" key), slash key) refl
after_third_slash-host whole (String.◌∷◌ c host) key h =
    rw (cons-append c host (String.◌++◌ "/" key))
      (ground (arith, h.0, after_third_slash-host whole host key h.1))

abbrev has_characters : String → Bool
has_characters String.[] = false
has_characters (String.◌∷◌ c s) = true

cons_not_empty : (c : Char) (s : String) → (String.◌∷◌ c s == "") ≡ false
cons_not_empty c s = elim (Bool-cases (String.◌∷◌ c s == "")) [
  | inl e ↦ cc (ap has_characters ((eq_iff (String.◌∷◌ c s) "").0 e))
  | inr e ↦ e
]

-- The key of a URL of the form https://host/key is what follows the host, whatever it holds itself.
pub extract_spaces_key-inverse :
    (host key : String)
    → SlashFree host
    → extract_spaces_key (String.◌++◌ "https://" (String.◌++◌ host (String.◌++◌ "/" key))) ≡ key
unfolding extract_spaces_key after_third_slash
extract_spaces_key-inverse host key h =
    rw (scheme (String.◌++◌ host (String.◌++◌ "/" key)), cons_not_empty "h" _)
      (after_third_slash-host _ host key h)
