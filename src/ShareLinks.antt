-- ===== src/ShareLinks.antt =====
-- Share links: internal/metadata/share_link.go, internal/sharelink/code.go, and insertShareLink of
-- internal/management/share_links.go. The table is the list of its rows; a time is a number of
-- nanoseconds.
pub mod Read
pub mod Insert
mod Tests
use fbs_core.Base.{
  ℕ, zero, suc, ◌+◌, ◌==◌, ltb, leb, Bool, true, false, not, ◌&&◌, ◌||◌, Bytes, List, [], ◌∷◌, ◌++◌,
  length, get_elem?, Option, none, some, select, codes, str_eq, str_ltb, is_digit, if◌then◌else◌,
  Result, ok, err, ◌>>=◌,
}
use fbs_core.Metadata.Model.{Time}

pub record ShareLink : Type 0 where
  pub code : Bytes
  pub bucket_name : Bytes
  pub object_key : Bytes
  pub response_content_disposition : Bytes
  pub created_by : Bytes
  pub expires_at : Option Time
  pub created_at : Time

-- The last is the error of the random source.
pub data ShareLinkError : Type 0 where
  share_link_not_found share_link_code_taken no_randomness : ShareLinkError

abbrev pub expired_at : Option Time → Time → Bool
expired_at none now = false
expired_at (some t) now = not (ltb now t)

unfoldable pub is_expired : ShareLink → Time → Bool
is_expired link now = expired_at link.expires_at now

unfoldable pub find_link : Bytes → List ShareLink → Option ShareLink
find_link code [] = none
find_link code (x ∷ rest) = if str_eq x.code code then some x else find_link code rest

abbrev pub created :
    Option ShareLink → ShareLink → List ShareLink → Result ShareLinkError (List ShareLink)
created (some _) link l = err share_link_code_taken
created none link l = ok (link ∷ l)

-- The code is the primary key.
unfoldable pub create : ShareLink → List ShareLink → Result ShareLinkError (List ShareLink)
create link l = created (find_link link.code l) link l

abbrev pub link_or_not_found : Option ShareLink → Result ShareLinkError ShareLink
link_or_not_found none = err share_link_not_found
link_or_not_found (some x) = ok x

unfoldable pub get_by_code : Bytes → List ShareLink → Result ShareLinkError ShareLink
get_by_code code l = link_or_not_found (find_link code l)

unfoldable pub without_code : Bytes → List ShareLink → List ShareLink
without_code code [] = []
without_code code (x ∷ rest) =
    let kept = without_code code rest in if str_eq x.code code then kept else x ∷ kept

abbrev pub when_found : Option ShareLink → List ShareLink → Result ShareLinkError (List ShareLink)
when_found none l = err share_link_not_found
when_found (some x) l = ok l

unfoldable pub delete : Bytes → List ShareLink → Result ShareLinkError (List ShareLink)
delete code l = when_found (find_link code l) (without_code code l)

-- `ORDER BY created_at DESC, code`
unfoldable pub insert_newest : ShareLink → List ShareLink → List ShareLink
insert_newest x [] = x ∷ []
insert_newest x (y ∷ rest) =
    let after = insert_newest x rest in
    if ltb y.created_at x.created_at || (x.created_at == y.created_at && str_ltb x.code y.code)
    then x ∷ y ∷ rest
    else y ∷ after

unfoldable pub newest_first : List ShareLink → List ShareLink
newest_first [] = []
newest_first (x ∷ rest) = insert_newest x (newest_first rest)

unfoldable pub list : Bytes → List ShareLink → List ShareLink
list bucket_name l =
    newest_first (select (λ x. str_eq bucket_name [] || str_eq x.bucket_name bucket_name) l)

-- The alias pattern: a letter or digit, then 2 to 63 letters, digits, dashes or underscores.
abbrev is_alphanumeric : ℕ → Bool
is_alphanumeric c = (leb b'A' c && leb c b'Z') || (leb b'a' c && leb c b'z') || is_digit c

abbrev alias_rest : Bytes → Bool
alias_rest [] = true
alias_rest (c ∷ s) = (is_alphanumeric c || c == b'_' || c == b'-') && alias_rest s

unfoldable pub validate_alias : Bytes → Bool
validate_alias [] = false
validate_alias (c ∷ s) =
    is_alphanumeric c && (leb 2 (length s) && (leb (length s) 63 && alias_rest s))

abbrev pub code_alphabet : Bytes
code_alphabet = codes "0123456789ABCDEFGHIJKLMNOPQRSTUVWXYZabcdefghijklmnopqrstuvwxyz"

-- GenerateCode on what the random source gives for each character: a number below 62, or an error.
abbrev pub character :
    Option Bytes → Option ℕ → Result ShareLinkError Bytes → Result ShareLinkError Bytes
character none c rest = rest
character (some _) none rest = err no_randomness
character (some _) (some c) (ok s) = ok (c ∷ s)
character (some _) (some c) (err e) = err e

abbrev pub drawn : Result {0} Unit ℕ → Result ShareLinkError Bytes → Result ShareLinkError Bytes
drawn (err _) rest = err no_randomness
drawn (ok n) rest = character (some []) (get_elem? code_alphabet n) rest

unfoldable pub generate : ℕ → (ℕ → Result {0} Unit ℕ) → Result ShareLinkError Bytes
generate zero random = ok []
generate (suc n) random = drawn (random 0) (generate n (λ i. random (suc i)))

unfoldable pub generate_code : (ℕ → Result {0} Unit ℕ) → Result ShareLinkError Bytes
generate_code = generate 10

abbrev pub with_code : ShareLink → Bytes → ShareLink
with_code link code = record link { code = code }

-- The loop of insertShareLink: the last error stands when the attempts are used up. The random source
-- is read anew for each attempt.
abbrev pub stored :
    ShareLink
    → Result ShareLinkError (List ShareLink)
    → Result ShareLinkError (ShareLink × List ShareLink)
stored link (ok l) = ok (link, l)
stored link (err e) = err e

abbrev pub or_retry :
    Result ShareLinkError (ShareLink × List ShareLink)
    → Result ShareLinkError (ShareLink × List ShareLink)
    → Result ShareLinkError (ShareLink × List ShareLink)
or_retry (err share_link_code_taken) next = next
or_retry r next = r

abbrev pub with_generated :
    ShareLink
    → List ShareLink
    → Result ShareLinkError Bytes
    → Result ShareLinkError (ShareLink × List ShareLink)
    → Result ShareLinkError (ShareLink × List ShareLink)
with_generated link l (err e) next = err e
with_generated link l (ok code) next =
    or_retry (stored (with_code link code) (create (with_code link code) l)) next

unfoldable pub insert_generated :
    ℕ
    → (ℕ → ℕ → Result {0} Unit ℕ)
    → ShareLink
    → List ShareLink
    → Result ShareLinkError (ShareLink × List ShareLink)
insert_generated zero random link l = err share_link_code_taken
insert_generated (suc n) random link l =
    let next = insert_generated n (λ i. random (suc i)) link l in
    with_generated link l (generate_code (random 0)) next

unfoldable pub insert_share_link :
    (ℕ → ℕ → Result {0} Unit ℕ)
    → ShareLink
    → Bytes
    → List ShareLink
    → Result ShareLinkError (ShareLink × List ShareLink)
insert_share_link random link alias l =
    if not (str_eq alias [])
    then stored (with_code link alias) (create (with_code link alias) l)
    else insert_generated 3 random link l
