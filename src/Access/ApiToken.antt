-- ===== src/Access/ApiToken.antt =====
-- API tokens: pkg/apitoken/apitoken.go, the rows of model/api_token.go and the handlers of
-- api/api_tokens.go. The random source, base64, CRC-32, SHA-256 and the calendar are parameters.
-- The query for a taken name answers.
pub mod Format
mod Tests
use zenith_panel.Common.{
  ℕ, zero, suc, ◌+◌, ◌*◌, List, [], ◌∷◌, ◌++◌, Option, none, some, Bool, true, false, not, ◌&&◌,
  ◌||◌, Text, codes, text_eq, text_beq, nat_eq, ltb, leb, if◌then◌else◌, ◌==◌, trim_space,
  has_prefix, all, find, drop, length, Result, ok, err, map,
}
use zenith_panel.Common.Integers.{ℤ, pos, negsuc}
use zenith_panel.Common.Decimal.{format_uint, parse_uint}
use zenith_panel.Access.Reply.{Reply, refuse, reply, unless}
use zenith_panel.Access.Scopes.{has_scope, scope_admin, wildcard, validate_scope_list}

pub record ApiToken : Type 0 where
  pub id : ℕ
  pub name : Text
  pub token_hash : Text
  pub scopes : Text
  pub expires_at : ℕ
  pub last_used_at : ℕ
  pub revoked : Bool

abbrev pub token_prefix : Text
token_prefix = codes "ztk_"

-- The libraries: raw URL base64, `%06x` of the low 24 bits of CRC-32, and SHA-256 in hex.
pub record Codec : Type 0 where
  pub encode : Text → Text
  pub decode : Text → Option Text
  pub checksum : Text → Text
  pub sha256_hex : Text → Text

-- The text in front of the last `sep` and behind it.
unfoldable pub cut_last : ℕ → Text → Option (Text × Text)
cut_last sep [] = none
cut_last sep (c ∷ s) = elim (cut_last sep s) [
  | some (a, b) ↦ some (c ∷ a, b)
  | none ↦ if c == sep then some ([], s) else none
]

-- The 16 random bytes, if the source gives them.
unfoldable pub generate : Codec → Option Text → Option (Text × Text)
generate lib none = none
generate lib (some raw) =
    let plaintext = token_prefix ++ lib.encode raw ++ b'_' ∷ lib.checksum raw in
    some (plaintext, lib.sha256_hex plaintext)

sum_matches : Codec → Option Text → Text → Bool
sum_matches lib none sum = false
sum_matches lib (some raw) sum = length raw == 16 && lib.checksum raw == sum

body_and_sum : Codec → Option (Text × Text) → Bool
unfolding sum_matches
body_and_sum lib none = false
body_and_sum lib (some (body, sum)) =
    length body == 22 && (length sum == 6 && sum_matches lib (lib.decode body) sum)

unfoldable pub is_well_formed : Codec → Text → Bool
unfolding body_and_sum cut_last
is_well_formed lib s = has_prefix token_prefix s && body_and_sum lib (cut_last b'_' (drop 4 s))

-- What the database does with one insert.
pub record Insert : Type 0 where
  pub fresh_id : ℕ
  pub fails : Option Text

name_taken : Text → List ApiToken → Bool
name_taken name [] = false
name_taken name (row ∷ rows) = row.name == name || name_taken name rows

-- The expiry after a number of days, 0 for never; `add_days` is the calendar's.
expiry : (ℕ → ℕ → ℕ) → ℕ → ℕ → ℕ
expiry add_days now zero = 0
expiry add_days now (suc days) = add_days now (suc days)

pub record Minted : Type 0 where
  pub row : ApiToken
  pub plaintext : Text

insert_token : Insert → ApiToken → Text → List ApiToken → Result Minted × List ApiToken
insert_token db row plaintext rows = elim db.fails [
  | some e ↦ (err e, rows)
  | none ↦ (ok (record { row = row; plaintext = plaintext }), rows ++ row ∷ [])
]

mint_generated :
    Insert → Text → Text → ℕ → Option (Text × Text) → List ApiToken → Result Minted × List ApiToken
unfolding insert_token
mint_generated db name scopes expires none rows = (err (codes "random source"), rows)
mint_generated db name scopes expires (some (plaintext, hash)) rows =
    insert_token db
      (record {
        id = db.fresh_id;
        name = name;
        token_hash = hash;
        scopes = scopes;
        expires_at = expires;
        last_used_at = 0;
        revoked = false;
      })
      plaintext rows

abbrev pub name_taken_error : Text
name_taken_error = codes "token name taken"

unfoldable pub mint_token :
    Codec
    → Option Text
    → Insert
    → (ℕ → ℕ → ℕ)
    → ℕ
    → Text
    → Text
    → ℕ
    → List ApiToken
    → Result Minted × List ApiToken
unfolding generate name_taken expiry mint_generated
mint_token lib raw db add_days now name scopes days rows =
    if name_taken name rows
    then (err name_taken_error, rows)
    else mint_generated db name scopes (expiry add_days now days) (generate lib raw) rows

-- `^[a-zA-Z0-9_.\-]{1,64}$`.
is_name_byte : ℕ → Bool
is_name_byte c =
    (leb b'a' c && leb c b'z')
    || (leb b'A' c && leb c b'Z')
    || (leb b'0' c && leb c b'9')
    || c == b'_'
    || c == b'.'
    || c == b'-'

is_token_name : Text → Bool
unfolding is_name_byte
is_token_name s = leb 1 (length s) && (leb (length s) 64 && all is_name_byte s)

pub record CreateTokenReq : Type 0 where
  pub name : Text
  pub scopes : Text
  pub expires_in_days : ℤ

-- The days of a request, between 0 and 3650.
requested_days : ℤ → Option ℕ
requested_days (negsuc n) = none
requested_days (pos n) = if leb n 3650 then some n else none

minted : Result Minted → Reply Minted
minted (ok m) = reply m
minted (err e) =
    if e == name_taken_error
    then refuse 409 (codes "Token name already exists")
    else refuse 500 (codes "Failed to create token: " ++ e)

create_checked :
    Codec
    → Option Text
    → Insert
    → (ℕ → ℕ → ℕ)
    → ℕ
    → Text
    → ℕ
    → Option Text
    → List ApiToken
    → Reply Minted × List ApiToken
unfolding mint_token minted
create_checked lib raw db add_days now name days none rows =
    (refuse 400 (codes "Unknown or invalid scope"), rows)
create_checked lib raw db add_days now name days (some scopes) rows =
    let (result, rows') = mint_token lib raw db add_days now name scopes days rows in
    (minted result, rows')

create_named :
    Codec
    → Option Text
    → Insert
    → (ℕ → ℕ → ℕ)
    → ℕ
    → CreateTokenReq
    → Option ℕ
    → List ApiToken
    → Reply Minted × List ApiToken
unfolding is_token_name create_checked
create_named lib raw db add_days now req none rows =
    (refuse 400 (codes "expires_in_days must be between 0 and 3650"), rows)
create_named lib raw db add_days now req (some days) rows =
    let name = trim_space req.name in
    if is_token_name name
    then create_checked lib raw db add_days now name days (validate_scope_list req.scopes) rows
    else (refuse 400 (codes "Name must match [a-zA-Z0-9_.-]{1,64}"), rows)

-- `caller` are the scopes of the request's principal.
unfoldable pub create_api_token :
    Codec
    → Option Text
    → Insert
    → (ℕ → ℕ → ℕ)
    → ℕ
    → Text
    → CreateTokenReq
    → List ApiToken
    → Reply Minted × List ApiToken
unfolding create_named requested_days
create_api_token lib raw db add_days now caller req rows =
    if has_scope caller scope_admin
    then create_named lib raw db add_days now req (requested_days req.expires_in_days) rows
    else (refuse 403 (codes "Scope 'admin' required"), rows)

unfoldable pub bootstrap_api_token :
    Codec → Option Text → Insert → ℕ → Bool → ℕ → List ApiToken → Reply Minted × List ApiToken
unfolding mint_token
bootstrap_api_token lib raw db now trusted_local nanoseconds rows =
    if trusted_local
    then (let name = codes "local-root-" ++ format_uint nanoseconds in
        let (result, rows') = mint_token lib raw db (λ t d. t) now name wildcard 0 rows in
        (
          elim result [ ok m ↦ reply m | err e ↦ refuse 500 (codes "Failed to mint: " ++ e) ],
          rows',
        ))
    else (refuse 403 (codes "bootstrap only available on unix socket"), rows)

abbrev find_id : ℕ → List ApiToken → Option ApiToken
find_id id = find (λ row. row.id == id)

unfoldable pub save_row : ApiToken → List ApiToken → List ApiToken
save_row row [] = []
save_row row (r ∷ rows) = if r.id == row.id then row ∷ save_row row rows else r ∷ save_row row rows

revoke_found : Option Text → Option ApiToken → List ApiToken → Reply (Unit {0}) × List ApiToken
unfolding save_row
revoke_found fails none rows = (refuse 404 (codes "Token not found"), rows)
revoke_found (some e) (some row) rows = (refuse 500 (codes "Failed to revoke"), rows)
revoke_found none (some row) rows = (reply tt, save_row (record row { revoked = true }) rows)

-- An id of 32 bits.
parse_id : Text → Option ℕ
parse_id s = elim (parse_uint s) [
  | none ↦ none
  | some n ↦ if ltb n 4294967296 then some n else none
]

unfoldable pub revoke_api_token :
    Option Text → Text → Text → List ApiToken → Reply (Unit {0}) × List ApiToken
unfolding revoke_found parse_id find
revoke_api_token fails caller id rows =
    if has_scope caller scope_admin
    then (elim (parse_id id) [
      | none ↦ (refuse 400 (codes "Invalid id"), rows)
      | some n ↦ revoke_found fails (find_id n rows) rows
    ])
    else (refuse 403 (codes "Scope 'admin' required"), rows)
