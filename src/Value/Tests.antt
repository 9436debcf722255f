-- ===== src/Value/Tests.antt =====
-- The laws of utils/src/Value.cpp on a value with two sub values.
use macdetect.Base.{◌≡◌, ◌++◌, [], ◌∷◌, arith, some, Text, text}
use macdetect.Value.{Value, value, nil, cons, size}
use macdetect.Value.Wire.{serialize, deserialize, le32}
use macdetect.Value.Encode.{encode, fitting, serialize-encode}
use macdetect.Value.RoundTrip.{deserialize-serialize}

abbrev leaf : Value
leaf = value (text "ip") (text "10") nil

abbrev message : Value
message = value (text "info") (text "x") (cons leaf (cons (value (text "mac") [] nil) nil))

abbrev behind : Text
behind = 1 ∷ 2 ∷ []

serialize-encode_example : serialize 2048 message ≡ fitting 2048 (encode message)
unfolding encode le32 size text
serialize-encode_example = serialize-encode message 2048 (omega arith) (omega arith)

deserialize-serialize_example : deserialize (encode message ++ behind) ≡ some (message, behind)
unfolding encode le32 size text
deserialize-serialize_example =
    deserialize-serialize message 2048 (encode message) behind (omega arith) (omega arith)
      (serialize-encode message 2048 (omega arith) (omega arith))
