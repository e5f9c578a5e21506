-- ===== src/Base64/Examples.antt =====
-- Four bytes there and back.
use rssdisk.Base.{ℕ, ◌≡◌, List, [], ◌∷◌, All, arith, some}
use rssdisk.Bitbase.RoundTrip.{IsByte}
use rssdisk.Base64.{base64_encode, base64_decode}
use rssdisk.Base64.RoundTrip.{base64_decode-base64_encode}

abbrev four : List ℕ
four = 0 ∷ 255 ∷ 88 ∷ 10 ∷ []

four-All : All IsByte four
four-All = (omega arith, (omega arith, (omega arith, (omega arith, tt))))

base64_decode-base64_encode_example : base64_decode (base64_encode four) ≡ some four
base64_decode-base64_encode_example = base64_decode-base64_encode four four-All (omega arith)
