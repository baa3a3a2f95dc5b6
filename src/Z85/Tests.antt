-- ===== src/Z85/Tests.antt =====
-- zmq_utils.cpp: the Z85 codec at concrete values; the bytes are those of the example in the RFC.
use mathlib.Core.Option
use zmq.Base.{ℕ, ◌*◌, ◌≡◌, refl, arith, some, List, [], ◌∷◌, length, All}
use zmq.Z85.{encode, decode}
use zmq.Z85.RoundTrip.{decode-encode}
use zmq.Z85.Canonical.{encode-decode}
use zmq.Z85.Strings.{IsPrintable, encode-IsPrintable}

abbrev hello_world : List ℕ
hello_world = 134 ∷ 79 ∷ 210 ∷ 111 ∷ 181 ∷ 89 ∷ 247 ∷ 91 ∷ []

-- "HelloWorld".
encoded : encode hello_world ≡ some (72 ∷ 101 ∷ 108 ∷ 108 ∷ 111 ∷ 87 ∷ 111 ∷ 114 ∷ 108 ∷ 100 ∷ [])
unfolding encode
encoded = refl

decode-encode_example :
    Option.bind (encode hello_world) (λ string. decode string) ≡ some hello_world
decode-encode_example = decode-encode hello_world (omega arith) refl (omega arith)

encode-IsPrintable_example :
    (string : List ℕ) × (encode hello_world ≡ some string)
    × (All IsPrintable string)
    × (length string * 4 ≡ length hello_world * 5)
encode-IsPrintable_example = encode-IsPrintable hello_world (omega arith) refl (omega arith)

abbrev hello_string : List ℕ
hello_string = 72 ∷ 101 ∷ 108 ∷ 108 ∷ 111 ∷ 87 ∷ 111 ∷ 114 ∷ 108 ∷ 100 ∷ []

encode-decode_example : encode hello_world ≡ some hello_string
unfolding decode
encode-decode_example = encode-decode hello_string hello_world (omega arith) (omega arith) refl
