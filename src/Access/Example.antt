-- ===== src/Access/Example.antt =====
-- Small libraries and rows for the tests of this part.
use zenith_panel.Common.{
  ℕ, zero, suc, ◌*◌, ◌≡◌, refl, ◌∙◌, sym, ap, [], ◌∷◌, ◌++◌, none, some, true, false, Text, codes,
  text_beq, Result, ok, err, length, take, drop, ok_inj,
}
use zenith_panel.Common.Integers.{ℤ, pos, negsuc}
use zenith_panel.Access.ApiToken.{ApiToken, Codec}
use zenith_panel.Access.Jwt.{Claims, JwtLibrary}
use zenith_panel.Access.Auth.{AdminUser, Accounts, Env, DbAnswers, Request}
use zenith_panel.Access.Sessions.Cap.{IsFaithful}

-- A text with its length in front.
abbrev put_text : Text → Text → Text
put_text s rest = length s ∷ (s ++ rest)

abbrev get_text : Text → Text × Text
get_text [] = ([], [])
get_text (n ∷ s) = (take n s, drop n s)

abbrev put_int : ℤ → Text → Text
put_int (pos n) rest = 0 ∷ n ∷ rest
put_int (negsuc n) rest = 1 ∷ n ∷ rest

abbrev get_int : Text → ℤ × Text
get_int (zero ∷ n ∷ rest) = (pos n, rest)
get_int (suc m ∷ n ∷ rest) = (negsuc n, rest)
get_int rest = (pos 0, rest)

abbrev encode_claims : Claims → Text
encode_claims c =
    c.session_version
    ∷ c.issued_at
    ∷ put_int c.logged_in_at (
        put_int c.expires_at
          (put_text c.user_id (put_text c.username (put_text c.purpose (put_text c.issuer [])))))

abbrev decode_texts : ℕ → ℕ → ℤ → ℤ → Text → Claims
decode_texts version issued login expires s =
    let (user_id, s1) = get_text s in
    let (username, s2) = get_text s1 in
    let (purpose, s3) = get_text s2 in
    record {
      user_id = user_id;
      username = username;
      purpose = purpose;
      session_version = version;
      logged_in_at = login;
      expires_at = expires;
      issued_at = issued;
      issuer = (get_text s3).0;
    }

abbrev decode_claims : Text → Result Claims
decode_claims (version ∷ issued ∷ s) =
    let (login, s1) = get_int s in
    let (expires, s2) = get_int s1 in ok (decode_texts version issued login expires s2)
decode_claims s = err (codes "malformed")

take_put : (s rest : Text) → take (length s) (s ++ rest) ≡ s
take_put [] rest = refl
take_put (c ∷ s) rest = ap (λ z. c ∷ z) (take_put s rest)

drop_put : (s rest : Text) → drop (length s) (s ++ rest) ≡ rest
drop_put [] rest = refl
drop_put (c ∷ s) rest = drop_put s rest

get-put_text : (s rest : Text) → get_text (put_text s rest) ≡ (s, rest)
get-put_text s rest = cc (take_put s rest, drop_put s rest)

get-put_int : (z : ℤ) (rest : Text) → get_int (put_int z rest) ≡ (z, rest)
get-put_int (pos n) rest = refl
get-put_int (negsuc n) rest = refl

decode-encode : (c : Claims) → decode_claims (encode_claims c) ≡ ok c
decode-encode c =
    rw
      (
        get-put_int c.logged_in_at (put_int c.expires_at texts),
        get-put_int c.expires_at texts,
        take_put c.user_id (put_text c.username (put_text c.purpose (put_text c.issuer []))),
        drop_put c.user_id (put_text c.username (put_text c.purpose (put_text c.issuer []))),
        take_put c.username (put_text c.purpose (put_text c.issuer [])),
        drop_put c.username (put_text c.purpose (put_text c.issuer [])),
        take_put c.purpose (put_text c.issuer []),
        drop_put c.purpose (put_text c.issuer []),
        take_put c.issuer [],
      )
      refl
  where
    texts : Text
    texts = put_text c.user_id (put_text c.username (put_text c.purpose (put_text c.issuer [])))

-- A JWT library that signs nothing and forgets no claim.
abbrev pub library : JwtLibrary
library = record {
  signed_string = λ key c. ok (encode_claims c);
  parse_with_claims = λ key issuer now token. decode_claims token;
}

pub library-IsFaithful : IsFaithful library
library-IsFaithful key claims other now token signed parsed =
    ok_inj (sym parsed ∙ ap decode_claims (sym (ok_inj signed)) ∙ decode-encode claims)

-- Base64, CRC-32 and SHA-256 of the tests.
abbrev pub codec : Codec
codec = record {
  encode = λ raw. raw ++ codes "______";
  decode = λ s. some (take 16 s);
  checksum = λ raw. codes "00a1ff";
  sha256_hex = λ s. s;
}

abbrev pub key : Text
key = codes "secret"

abbrev pub env : Env
env = record {
  codec = codec;
  jwt = library;
  key = key;
  parse_url = λ s. some (codes "https", drop 8 s);
  equal_fold = text_beq;
}

abbrev pub all_well : DbAnswers
all_well = record { finds_token = true; finds_admin = true; touches = true }

abbrev pub admin : AdminUser
admin = record {
  id = 1;
  username = codes "root";
  password_hash = codes "hash";
  totp_secret = codes "totp";
  totp_enabled = true;
  recovery_codes = codes "a,b";
  session_version = 3;
}

abbrev pub ci_token : Text
ci_token = codes "ztk_abcdefghijklmnop_______00a1ff"

abbrev pub ci_row : ApiToken
ci_row = record {
  id = 7;
  name = codes "ci";
  token_hash = ci_token;
  scopes = codes "read";
  expires_at = 2000;
  last_used_at = 990;
  revoked = false;
}

abbrev pub accounts : Accounts
accounts = record { admins = admin ∷ []; tokens = ci_row ∷ [] }

-- A thousand seconds after the epoch.
abbrev pub noon : ℕ
noon = 1000 * 1000000000

abbrev pub admin_claims : Claims
admin_claims = record {
  user_id = codes "1";
  username = codes "root";
  purpose = codes "admin";
  session_version = 3;
  logged_in_at = pos 900;
  expires_at = pos 87300;
  issued_at = 900;
  issuer = codes "zenithpanel";
}

abbrev pub wizard_claims : Claims
wizard_claims = record {
  user_id = codes "setup-admin";
  username = codes "setup";
  purpose = codes "setup";
  session_version = 0;
  logged_in_at = negsuc 62135596799;
  expires_at = pos 2700;
  issued_at = 900;
  issuer = codes "zenithpanel";
}

abbrev pub bearer : Text → Request
bearer token = record {
  trusted_local = false;
  authorization = codes "Bearer " ++ token;
  cookie = none;
  method = codes "GET";
  origin = [];
  host = codes "panel.example";
  now = noon;
}

abbrev pub token_of : Claims → Text
token_of = encode_claims
