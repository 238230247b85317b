-- ===== src/Auth/SigV4/Request.antt =====
-- What the signatures read of an http.Request. The map types http.Header and url.Values are
-- association lists from a name to its values; header names are in their canonical form.
use fbs_core.Base.{
  ◌-◌, leb, ◌==◌, Bool, true, false, ◌&&◌, ◌||◌, Bytes, List, [], ◌∷◌, str_eq, str_eq_iff,
  str_eq_refl, has_byte, lower_byte, codes, if◌then◌else◌, ◌≡◌, refl, arith,
}

abbrev pub Values : Type 0
Values = List (Bytes × List Bytes)

-- The query is that of the URL's RawQuery, parsed.
pub record Request : Type 0 where
  pub method : Bytes
  pub host : Bytes
  pub escaped_path : Bytes
  pub query : Values
  pub headers : Values

unfoldable pub find_values : Bytes → Values → List Bytes
unfolding str_eq
find_values k [] = []
find_values k ((name, values) ∷ rest) = if str_eq name k then values else find_values k rest

abbrev pub first : List Bytes → Bytes
first [] = []
first (v ∷ _) = v

-- url.Values.Get and Set
abbrev pub values_get : Bytes → Values → Bytes
values_get k l = first (find_values k l)

unfoldable pub set_value : Bytes → Bytes → Values → Values
unfolding str_eq
set_value k v [] = (k, v ∷ []) ∷ []
set_value k v ((name, values) ∷ rest) =
    let after = set_value k v rest in
    if str_eq name k then (name, v ∷ []) ∷ rest else (name, values) ∷ after

-- The bytes of a header name (RFC 9110 token).
token_byte : Bytes → Bool
token_byte [] = true
token_byte (c ∷ s) =
    (((leb b'0' c && leb c b'9')
        || (leb b'a' c && leb c b'z')
        || (leb b'A' c && leb c b'Z')
        || has_byte c (codes "!#$%&'*+-.^_`|~"))
      && token_byte s)

-- A letter at the front or after a dash is upper case, the others lower case.
canonical_from : Bool → Bytes → Bytes
canonical_from upper [] = []
canonical_from upper (c ∷ s) =
    (if upper && leb b'a' c && leb c b'z' then c - 32 else if upper then c else lower_byte c)
    ∷ canonical_from (c == b'-') s

-- textproto.CanonicalMIMEHeaderKey
unfoldable pub canonical_key : Bytes → Bytes
unfolding token_byte canonical_from has_byte lower_byte
canonical_key s = if token_byte s then canonical_from true s else s

-- http.Header.Get and Set
abbrev pub header_get : Bytes → Request → Bytes
header_get k r = values_get (canonical_key k) r.headers

abbrev pub header_set : Bytes → Bytes → Request → Request
header_set k v r = record r { headers = set_value (canonical_key k) v r.headers }

pub find_values-set_value : (k v : Bytes) (l : Values) → find_values k (set_value k v l) ≡ v ∷ []
unfolding find_values set_value
find_values-set_value k v [] = rw (str_eq_refl k) refl
find_values-set_value k v ((name, values) ∷ l) = ground (arith, find_values-set_value k v l)

pub find_values-set_value_other :
    (k j v : Bytes) (l : Values)
    → str_eq k j ≡ false
    → find_values j (set_value k v l) ≡ find_values j l
unfolding find_values set_value
find_values-set_value_other k j v [] h = rw h refl
find_values-set_value_other k j v ((name, values) ∷ l) h = ground (
  arith,
  find_values-set_value_other k j v l h,
  str_eq_iff name k,
  str_eq_iff name j,
  str_eq_iff k j,
)
