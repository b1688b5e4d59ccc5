-- ===== src/Playback/Resolver.antt =====
-- backend/internal/playback/media/resolver.go: URLs that are signed for a while. The HMAC, Go's
-- strconv and the time in seconds are parameters.
use smusic.Prelude.{
  ◌≡◌, refl, eq_refl, ℕ, ◌+◌, String, str_append, Bool, false, Option, none, some, if◌then◌else◌,
  leb, str_eq,
}

pub record Signing : Type 0 where
  pub base_url : String
  -- hex of HMAC-SHA-256 under the key
  pub mac : String → String
  pub ttl : ℕ
  pub unix : ℕ → ℕ
  pub format_int : ℕ → String
  pub parse_int : String → Option ℕ

pub record Resolved : Type 0 where
  pub url : String
  pub expires_at : ℕ

module _ (signing : Signing) where
  unfoldable pub sign : String → String → String
  sign track_id exp = signing.mac (str_append track_id (str_append "." exp))

  unfoldable pub expiry : ℕ → String
  expiry time = signing.format_int (signing.unix (time + signing.ttl))

  unfoldable pub resolve : String → ℕ → Resolved
  resolve track_id time =
      let exp = expiry time in
      record {
        url = str_append signing.base_url (
            str_append "/sample.mp3?track=" (
              str_append track_id
                (str_append "&exp=" (str_append exp (str_append "&sig=" (sign track_id exp))))));
        expires_at = time + signing.ttl;
      }

  abbrev pub not_after : ℕ → Option ℕ → Bool
  not_after now none = false
  not_after now (some exp) = leb now exp

  unfoldable pub verify : String → String → String → ℕ → Bool
  verify track_id exp sig time =
      if str_eq (sign track_id exp) sig
      then not_after (signing.unix time) (signing.parse_int exp)
      else false

-- A link with its parts.
abbrev pub link : Signing → String → String → String → String
link signing track_id exp sig = str_append signing.base_url (
    str_append "/sample.mp3?track="
      (str_append track_id (str_append "&exp=" (str_append exp (str_append "&sig=" sig)))))

-- If numbers are read back as they are written: the link of a track carries an expiry and a signature
-- that are accepted for that track as long as the time in seconds is not after the expiry that was
-- returned, and at no time later.
pub resolve-verify :
    (signing : Signing)
    → ((n : ℕ) → signing.parse_int (signing.format_int n) ≡ some n)
    → (track_id : String) (issued time : ℕ)
    → (exp : String) × (sig : String) × ((resolve signing track_id issued).url
        ≡ link signing track_id exp sig)
      × (verify signing track_id exp sig time
          ≡ leb (signing.unix time) (signing.unix (resolve signing track_id issued).expires_at))
unfolding resolve verify expiry
resolve-verify signing reads track_id issued time =
    let exp = expiry signing issued in
    let sig = sign signing track_id exp in
    (exp, sig, refl, rw (eq_refl sig, reads (signing.unix (issued + signing.ttl))) refl)
