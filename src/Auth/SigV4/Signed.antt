-- ===== src/Auth/SigV4/Signed.antt =====
-- A request that was signed is accepted.
use fbs_core.Base.{
  Bool, true, false, not, ◌&&◌, Bytes, List, [], ◌∷◌, map, codes, join, split, str_eq, str_eq_iff,
  every, every-append, all_without, All, ◌≡◌, ◌≢◌, refl, ap, ◌∙◌, sym, arith, Bool-cases, ◌⊎◌, inl,
  inr,
}
use fbs_core.Auth.Secret.{hex_encode, hex_digit, IsByte}
use fbs_core.Auth.SigV4.Clock.{Civil, stamp_text}
use fbs_core.Auth.SigV4.Request.{
  Request, canonical_key, header_get, header_set, first, find_values-set_value,
  find_values-set_value_other,
}
use fbs_core.Auth.SigV4.Canonical.{
  unsigned_payload, or_unsigned, get_payload_hash, header_line, build_canonical_headers,
  build_canonical_request,
}
use fbs_core.Auth.SigV4.Header.{names_host}
use fbs_core.Auth.SigV4.Sign.{with_host, with_payload, dated_request}
use fbs_core.Auth.SigV4.Printed.{is_value_byte, IsValue}

-- A header that is read before and after another one is set.
pub header_get-header_set : (k v : Bytes) (r : Request) → header_get k (header_set k v r) ≡ v
header_get-header_set k v r = ap first (find_values-set_value (canonical_key k) v r.headers)

pub header_get_other :
    (k j v : Bytes) (r : Request)
    → str_eq (canonical_key k) (canonical_key j) ≡ false
    → header_get j (header_set k v r) ≡ header_get j r
header_get_other k j v r h =
    ap first (find_values-set_value_other (canonical_key k) (canonical_key j) v r.headers h)

header_get-with_host :
    (j : Bytes) (r : Request)
    → str_eq (canonical_key (codes "Host")) (canonical_key j) ≡ false
    → header_get j (with_host r) ≡ header_get j r
header_get-with_host j r h =
    elim (Bool-cases (str_eq (header_get (codes "Host") r) [] && not (str_eq r.host []))) [
      | inl here ↦ rw here (header_get_other (codes "Host") j r.host r h)
      | inr other ↦ rw other refl
    ]

header_get-with_payload :
    (hash j : Bytes) (r : Request)
    → str_eq (canonical_key (codes "X-Amz-Content-SHA256")) (canonical_key j) ≡ false
    → header_get j (with_payload hash r) ≡ header_get j r
header_get-with_payload hash j r h = elim (Bool-cases (str_eq hash unsigned_payload)) [
  | inl here ↦ rw here refl
  | inr other ↦ rw other (header_get_other (codes "X-Amz-Content-SHA256") j hash r h)
]

or_unsigned_idem : (h : Bytes) → or_unsigned (or_unsigned h) ≡ or_unsigned h
or_unsigned_idem h = elim (Bool-cases (str_eq h [])) [
  | inl here ↦ rw here (unfold str_eq in refl)
  | inr other ↦ rw (other, other) refl
]

or_unsigned-nil : or_unsigned [] ≡ unsigned_payload
unfolding str_eq
or_unsigned-nil = refl

-- The request names a payload, or has no header that names one.
abbrev pub PayloadAgrees : Bytes → Request → Type 0
PayloadAgrees payload_hash r =
    (str_eq (or_unsigned payload_hash) unsigned_payload ≡ false)
    ⊎ (header_get (codes "X-Amz-Content-SHA256") r ≡ [])

module _ (r : Request) (payload_hash : Bytes) (now : Civil) where
  pub header_get-date :
      header_get (codes "X-Amz-Date") (dated_request r payload_hash now) ≡ stamp_text now
  header_get-date =
      let other : str_eq (canonical_key (codes "X-Amz-Content-SHA256"))
            (canonical_key (codes "X-Amz-Date"))
          ≡ false =
        unfold str_eq canonical_key in refl in
      let host : str_eq (canonical_key (codes "Host")) (canonical_key (codes "X-Amz-Date"))
          ≡ false =
        unfold str_eq canonical_key in refl in
      header_get-with_payload (or_unsigned payload_hash) (codes "X-Amz-Date") _ other
      ∙ header_get-with_host (codes "X-Amz-Date") _ host
      ∙ header_get-header_set (codes "X-Amz-Date") (stamp_text now) r

  payload_named :
      str_eq (or_unsigned payload_hash) unsigned_payload ≡ false
      → get_payload_hash (dated_request r payload_hash now) ≡ or_unsigned payload_hash
  payload_named named =
      rw
        (
          named,
          header_get-header_set (codes "X-Amz-Content-SHA256") (or_unsigned payload_hash)
              (with_host (header_set (codes "X-Amz-Date") (stamp_text now) r)),
        )
        (or_unsigned_idem payload_hash)

  pub get_payload_hash-dated :
      PayloadAgrees payload_hash r
      → get_payload_hash (dated_request r payload_hash now) ≡ or_unsigned payload_hash
  get_payload_hash-dated (inl named) = payload_named named
  get_payload_hash-dated (inr absent) =
      elim (Bool-cases (str_eq (or_unsigned payload_hash) unsigned_payload)) [
        | inr other ↦ payload_named other
        | inl here ↦
            let hash = codes "X-Amz-Content-SHA256" in
            let host : str_eq (canonical_key (codes "Host")) (canonical_key hash) ≡ false =
              unfold str_eq canonical_key in refl in
            let date : str_eq (canonical_key (codes "X-Amz-Date")) (canonical_key hash) ≡ false =
              unfold str_eq canonical_key in refl in
            let nothing =
              header_get-with_host hash (header_set (codes "X-Amz-Date") (stamp_text now) r) host
              ∙ header_get_other (codes "X-Amz-Date") hash (stamp_text now) r date
              ∙ absent in
            rw (here, nothing)
              (or_unsigned-nil
                ∙ sym ((str_eq_iff (or_unsigned payload_hash) unsigned_payload).0 here))
      ]

-- Headers that the signer may sign: text, without the separators, the host among them, and not the
-- header that it writes last.
abbrev pub not_authorization : List Bytes → Bool
not_authorization [] = true
not_authorization (h ∷ hs) =
    not (str_eq (canonical_key (codes "Authorization")) (canonical_key h)) && not_authorization hs

abbrev pub all_values : List Bytes → Bool
all_values [] = true
all_values (h ∷ hs) = every is_value_byte h && all_values hs

pub record Signable (hs : List Bytes) : Type 0 where
  pub text : all_values hs ≡ true
  pub apart : all_without b';' hs ≡ true
  pub host : names_host hs ≡ true
  pub before : not_authorization hs ≡ true

-- What the header of the signature does not change.
module _ (text : Bytes) (r : Request) where
  abbrev signed : Request
  signed = header_set (codes "Authorization") text r

  canonical_headers-signed :
      (hs : List Bytes)
      → not_authorization hs ≡ true
      → map (header_line signed) hs ≡ map (header_line r) hs
  canonical_headers-signed [] h = refl
  canonical_headers-signed (x ∷ hs) h =
      let apart : str_eq (canonical_key (codes "Authorization")) (canonical_key x) ≡ false =
        ground (arith, h) in
      rw
        (
          header_get_other (codes "Authorization") x text r apart,
          canonical_headers-signed hs (ground (arith, h)),
        )
        refl

  pub build_canonical_request-signed :
      (hs : List Bytes) (names payload_hash : Bytes)
      → split b';' names ≡ hs
      → not_authorization hs ≡ true
      → build_canonical_request signed names payload_hash
        ≡ build_canonical_request r names payload_hash
  unfolding build_canonical_request build_canonical_headers
  build_canonical_request-signed hs names payload_hash h k =
      rw (h, canonical_headers-signed hs k) refl

pub all_values-join :
    (hs : List Bytes) → all_values hs ≡ true → every is_value_byte (join (codes ";") hs) ≡ true
unfolding join
all_values-join [] h = refl
all_values-join (x ∷ []) h = ground (arith, h)
all_values-join (x ∷ y ∷ hs) h =
    every-append is_value_byte x (b';' ∷ join (codes ";") (y ∷ hs)) (ground (arith, h))
      (all_values-join (y ∷ hs) (ground (arith, h)))

pub names_host-join :
    (h : Bytes) (hs : List Bytes)
    → names_host (h ∷ hs) ≡ true
    → str_eq (join (codes ";") (h ∷ hs)) [] ≡ false
unfolding join str_eq
names_host-join [] [] k = cc
names_host-join [] (y ∷ hs) k = refl
names_host-join (c ∷ h) [] k = refl
names_host-join (c ∷ h) (y ∷ hs) k = refl

hex_encode-value : (s : Bytes) → All IsByte s → every is_value_byte (hex_encode s) ≡ true
unfolding hex_encode hex_digit
hex_encode-value [] h = refl
hex_encode-value (c ∷ s) (small, h) = ground (arith, hex_encode-value s h)

pub hex_encode-IsValue : (s : Bytes) → All IsByte s → s ≢ [] → IsValue (hex_encode s)
unfolding hex_encode str_eq
hex_encode-IsValue [] h some_byte = absurd (some_byte refl)
hex_encode-IsValue (c ∷ s) h some_byte = (hex_encode-value (c ∷ s) h, refl)
