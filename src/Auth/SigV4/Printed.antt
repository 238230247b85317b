-- ===== src/Auth/SigV4/Printed.antt =====
-- The texts that a signer writes are read back by the authenticator.
use fbs_core.Base.{
  ℕ, ◌<◌, ltb, Bool, true, false, ◌&&◌, Bytes, [], ◌∷◌, ◌++◌, length, codes, str_eq, split, cut,
  every, every-append, is_graphic, is_not, trim_space-every, trim_space-blank, split-append,
  split-every, has_prefix, ok, ◌≡◌, refl, arith,
}
use fbs_core.Auth.SigV4.Clock.{Civil, date_text}
use fbs_core.Auth.SigV4.Canonical.{terminator}
use fbs_core.Auth.SigV4.Header.{
  parse_authorization_header, parse_credential, all_digits, read_params,
}
use fbs_core.Auth.SigV4.Sign.{credential_text, authorization_text}

-- A byte of a value in the header: printable, and no comma.
abbrev pub is_value_byte : ℕ → Bool
is_value_byte c = is_graphic c && is_not b',' c

pub every_value :
    (s : Bytes)
    → every is_value_byte s ≡ true
    → (every is_graphic s ≡ true) × (every (is_not b',') s ≡ true)
every_value [] h = (refl, refl)
every_value (c ∷ s) h = ground (arith, h, every_value s)

-- A value that is there.
abbrev pub IsValue : Bytes → Type 0
IsValue s = (every is_value_byte s ≡ true) × (str_eq s [] ≡ false)

-- Reading back the three parameters.
pub parse_authorization_header-text :
    (credential signed_headers signature : Bytes)
    → IsValue credential
    → IsValue signed_headers
    → IsValue signature
    → parse_authorization_header (authorization_text credential signed_headers signature)
      ≡ ok (record {
        credential = credential;
        signed_headers = signed_headers;
        signature = signature;
      })
unfolding parse_authorization_header read_params has_prefix cut str_eq
parse_authorization_header-text credential signed_headers signature (c, some_c) (h, some_h)
      (s, some_s) =
    let (gc, nc) = every_value credential c in
    let (gh, nh) = every_value signed_headers h in
    let (gs, ns) = every_value signature s in
    rw
      (
        split-append b',' (codes "Credential=" ++ credential)
            (codes " SignedHeaders=" ++ (signed_headers ++ (codes ", Signature=" ++ signature))) nc,
        split-append b',' (codes " SignedHeaders=" ++ signed_headers)
            (codes " Signature=" ++ signature) nh,
        split-every b',' (codes " Signature=" ++ signature) ns,
        trim_space-every (codes "Credential=" ++ credential) gc,
        trim_space-blank (codes "SignedHeaders=" ++ signed_headers) gh,
        trim_space-blank (codes "Signature=" ++ signature) gs,
        some_c,
        some_h,
        some_s,
      )
      refl

-- A part of a credential.
abbrev pub IsPart : Bytes → Type 0
IsPart s = (every is_value_byte s ≡ true) × (every (is_not b'/') s ≡ true) × (str_eq s [] ≡ false)

date_text-digits :
    (c : Civil)
    → c.year < 10000
    → (all_digits (date_text c) ≡ true)
      × (length (date_text c) ≡ 8)
      × (every (is_not b'/') (date_text c) ≡ true)
      × (every is_value_byte (date_text c) ≡ true)
date_text-digits c h =
    let four : ltb c.year 10000 ≡ true = ground arith in
    rw four (ground arith, refl, ground arith, ground arith)

pub parse_credential-text :
    (id region : Bytes) (c : Civil)
    → IsPart id
    → IsPart region
    → c.year < 10000
    → parse_credential (credential_text id (date_text c) region (codes "s3"))
      ≡ ok
          (record { access_key_id = id; date = date_text c; region = region; service = codes "s3" })
unfolding parse_credential str_eq
parse_credential-text id region c (_, plain_id, some_id) (_, plain_region, some_region) early =
    let (digits, eight, plain_date, _) = date_text-digits c early in
    let rest = codes "s3/" ++ terminator in
    let last : split b'/' rest ≡ codes "s3" ∷ terminator ∷ [] = unfold split in refl in
    rw
      (
        split-append b'/' id (date_text c ++ (b'/' ∷ (region ++ (b'/' ∷ rest)))) plain_id,
        split-append b'/' (date_text c) (region ++ (b'/' ∷ rest)) plain_date,
        split-append b'/' region rest plain_region,
        last,
        some_id,
        eight,
        digits,
        some_region,
      )
      refl

pub credential_text-IsValue :
    (id region : Bytes) (c : Civil)
    → IsPart id
    → IsPart region
    → c.year < 10000
    → IsValue (credential_text id (date_text c) region (codes "s3"))
unfolding str_eq
credential_text-IsValue id region c (plain_id, _, some_id) (plain_region, _, _) early =
    let (_, _, _, plain_date) = date_text-digits c early in
    let tail = every-append is_value_byte region (codes "/s3/" ++ terminator) plain_region refl in
    let rest = every-append is_value_byte (date_text c) _ plain_date tail in
    (every-append is_value_byte id _ plain_id rest, not_empty id _ some_id)
  where
    not_empty : (a b : Bytes) → str_eq a [] ≡ false → str_eq (a ++ b) [] ≡ false
    not_empty [] b h = cc
    not_empty (x ∷ a) b h = refl
