-- ===== src/Compact/Codec/Examples.antt =====
-- The round trip of the codec at 300.
use neutrasearch.Base.{◌≡◌, [], ◌∷◌, ◌++◌, ok, arith, length}
use neutrasearch.Compact.Codec.{put_varint, get_varint}
use neutrasearch.Compact.Codec.RoundTrip.{get_varint-put_varint}

get_varint-put_varint_example :
    get_varint (put_varint 300 (7 ∷ []) ++ 9 ∷ []) 1 ≡ ok (300, length (put_varint 300 (7 ∷ [])))
get_varint-put_varint_example = get_varint-put_varint 300 (7 ∷ []) (9 ∷ []) (omega arith)
