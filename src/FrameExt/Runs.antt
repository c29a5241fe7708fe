-- ===== src/FrameExt/Runs.antt =====
-- frameext/frameext.go at concrete extensions.
use aafp_go.Base.{◌≡◌, refl, true, false, Bytes, [], ◌∷◌, length, be_bytes, ok, arith}
use aafp_go.FrameExt.{Extension, encode, decode}
use aafp_go.FrameExt.RoundTrip.{ext_decode-encode}

abbrev trace : Extension
trace = record { ext_type = 5; critical = false; payload = 1 ∷ 2 ∷ [] }

abbrev lock : Extension
lock = record { ext_type = 9; critical = true; payload = 3 ∷ [] }

abbrev section : Bytes
section = 0 ∷ 5 ∷ 0 ∷ 0 ∷ 0 ∷ 0 ∷ 0 ∷ 2 ∷ 1 ∷ 2 ∷ (0 ∷ 9 ∷ 1 ∷ 0 ∷ 0 ∷ 0 ∷ 0 ∷ 1 ∷ 3 ∷ [])

encode_two : encode (trace ∷ lock ∷ []) ≡ ok section
unfolding encode be_bytes
encode_two = refl

ext_decode-encode_example :
    (bs : Bytes) × (encode (trace ∷ lock ∷ []) ≡ ok bs)
    × (length bs ≡ 19)
    × (decode bs ≡ ok (trace ∷ lock ∷ []))
ext_decode-encode_example = ext_decode-encode (trace ∷ lock ∷ []) (ground arith) (omega arith)
