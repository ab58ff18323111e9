-- ===== src/Nanopb/Examples/Wire.antt =====
-- Integers, headers and reads of BetweenUS/Pods/nanopb on concrete bytes.
use between_us.Prelude.{◌+◌, ◌-◌, ◌<◌, ◌≤◌, ◌^◌, ◌≡◌, refl, [], ◌∷◌, ◌++◌, none, All, length, arith}
use between_us.Prelude.{replicate}
use between_us.Prelude.Outcome.{ok}
use between_us.Nanopb.Input.Varint.{pb_decode_varint, pb_decode_varint32, pb_decode_svarint}
use between_us.Nanopb.Input.Varint.{varint32_loop}
use between_us.Nanopb.Input.Rounds.{varint32_loop_enough}
use between_us.Nanopb.Input.Fields.{field, wt_string, pb_decode_tag}
use between_us.Nanopb.Output.{Ostream, buffer, pb_write}
use between_us.Nanopb.Output.Laws.{IsBounded, pb_write_lem}
use between_us.Nanopb.Output.Scalars.{varint_bytes, zigzag, tag_value}
use between_us.Nanopb.Wire.Groups.{varint_bytes_shape}
use between_us.Nanopb.Wire.RoundTrip.{
  reading, pb_decode_varint-varint_bytes, pb_decode_svarint-zigzag,
}
use between_us.Nanopb.Wire.Header.{pb_decode_varint32-varint_bytes, pb_decode_tag-tag_value}
use between_us.Nanopb.Wire.Wrap.{pb_decode_varint32_wraps}

varint_bytes_300 : varint_bytes 300 ≡ 0xac ∷ 0x02 ∷ []
unfolding varint_bytes
varint_bytes_300 = refl

-- -2, as a pattern, is 3 in the zigzag code.
zigzag_minus_two : zigzag (2 ^ 64 - 2) ≡ 3
unfolding zigzag
zigzag_minus_two = refl

varint_bytes_shape_example :
    All (λ b. b < 256) (varint_bytes (2 ^ 64 - 1))
    × (1 ≤ length (varint_bytes (2 ^ 64 - 1)))
    × (length (varint_bytes (2 ^ 64 - 1)) ≤ 10)
varint_bytes_shape_example = varint_bytes_shape (2 ^ 64 - 1) (omega arith)

pb_decode_varint-varint_bytes_example :
    pb_decode_varint (reading (varint_bytes 300 ++ (7 ∷ [])) (length (varint_bytes 300) + 1) none)
    ≡ ok 300 (reading (7 ∷ []) 1 none)
pb_decode_varint-varint_bytes_example =
    pb_decode_varint-varint_bytes 300 (7 ∷ []) 1 none (omega arith)

pb_decode_svarint-zigzag_example :
    let bytes = varint_bytes (zigzag 18446744073709551614) in
    pb_decode_svarint (reading (bytes ++ []) (length bytes + 0) none)
    ≡ ok 18446744073709551614 (reading [] 0 none)
pb_decode_svarint-zigzag_example =
    pb_decode_svarint-zigzag 18446744073709551614 [] 0 none (omega arith)

pb_decode_varint32-varint_bytes_example :
    pb_decode_varint32 (reading (varint_bytes 300 ++ (7 ∷ [])) (length (varint_bytes 300) + 1) none)
    ≡ ok 300 (reading (7 ∷ []) 1 none)
pb_decode_varint32-varint_bytes_example =
    pb_decode_varint32-varint_bytes 300 (7 ∷ []) 1 none (omega arith)

pb_decode_tag-tag_value_example :
    let bytes = varint_bytes (tag_value wt_string 1000) in
    pb_decode_tag (reading (bytes ++ (7 ∷ [])) (length bytes + 1) none)
    ≡ field 1000 wt_string (reading (7 ∷ []) 1 none)
pb_decode_tag-tag_value_example =
    pb_decode_tag-tag_value wt_string 1000 (7 ∷ []) 1 none (omega arith) (omega arith) (omega arith)

pb_decode_varint32_wraps_example :
    pb_decode_varint32 (reading (replicate 37 0x80 ++ (5 ∷ [])) (38 + 0) none)
    ≡ ok 40 (reading [] 0 none)
pb_decode_varint32_wraps_example = pb_decode_varint32_wraps 5 [] 0 none (omega arith)

abbrev four_of_six : Ostream
four_of_six = record {
  sink = buffer (1 ∷ 2 ∷ 3 ∷ 4 ∷ []);
  max_size = 6;
  bytes_written = 4;
  errmsg = none;
}

four_of_six-IsBounded : IsBounded four_of_six
four_of_six-IsBounded = omega arith

pb_write_lem_example :
    pb_write (5 ∷ 6 ∷ []) four_of_six
    ≡ ok tt (record four_of_six { sink = buffer (1 ∷ 2 ∷ 3 ∷ 4 ∷ 5 ∷ 6 ∷ []); bytes_written = 6 })
pb_write_lem_example =
    pb_write_lem (5 ∷ 6 ∷ []) (1 ∷ 2 ∷ 3 ∷ 4 ∷ []) four_of_six refl four_of_six-IsBounded
      (omega arith)

varint32_loop_enough_example :
    varint32_loop 3 7 0 (reading (0x80 ∷ 0x01 ∷ []) 2 none)
    ≡ varint32_loop 100 7 0 (reading (0x80 ∷ 0x01 ∷ []) 2 none)
varint32_loop_enough_example =
    varint32_loop_enough 3 100 7 0 (reading (0x80 ∷ 0x01 ∷ []) 2 none) (omega arith) (omega arith)
