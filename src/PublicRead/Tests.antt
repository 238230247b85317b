-- ===== src/PublicRead/Tests.antt =====
-- A path that is signed for a minute; the mac counts the text.
use Prim.Native.Nat.{zero, suc}
use fbs_core.Base.{
  ℕ, ◌%◌, true, Bytes, [], ◌∷◌, length, some, codes, trim_space, atoi, All, ok, ◌≡◌, ◌↔◌, refl,
  arith, pos, ℤ, str_eq, decimal,
}
use fbs_core.Auth.Secret.{IsByte, hex_encode, hex_decode, hex_value}
use fbs_core.PublicRead.{canonical_string, before, sign_path, verify}
use fbs_core.PublicRead.Verify.{verify_iff}

abbrev repeat : ℕ → ℕ → Bytes
repeat zero c = []
repeat (suc n) c = c ∷ repeat n c

abbrev mac : Bytes → Bytes → Bytes
mac key text = repeat 32 (length text % 256)

repeat-IsByte : (n c : ℕ) → IsByte c → All IsByte (repeat n c)
repeat-IsByte zero c h = tt
repeat-IsByte (suc n) c h = (h, repeat-IsByte n c h)

abbrev path : Bytes
path = codes "/public/b/k"

abbrev signature : Bytes
signature = sign_path mac (codes "secret") path (pos 60) []

signature_passes : verify mac (codes "secret") 59999999999 path (codes "60") [] signature ≡ ok tt
unfolding verify sign_path hex_encode hex_decode hex_value canonical_string trim_space atoi str_eq
    decimal
signature_passes = refl

verify_iff_example :
    (verify mac (codes "secret") 59999999999 path (codes "60") [] signature ≡ ok tt) ↔ (
      (e : ℤ) × (atoi (trim_space (codes "60")) ≡ some e)
      × (before 59999999999 e ≡ true)
      × (hex_decode (trim_space signature)
          ≡ some (mac (codes "secret") (canonical_string path e []))))
verify_iff_example =
    verify_iff mac (codes "secret") (λ key text. repeat-IsByte 32 (length text % 256) (omega arith))
      (λ key text. refl) 59999999999 path (codes "60") [] signature
