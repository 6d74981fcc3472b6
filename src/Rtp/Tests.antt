-- ===== src/Rtp/Tests.antt =====
-- The codec of RtpProtocol.h at concrete inputs.
use fastvid.Common.{
  ℕ, List, ◌+◌, ◌^◌, ◌%◌, drop, replicate, length-replicate, ◌≡◌, ◌≢◌, refl, true, false, none,
  some, [], ◌∷◌, ◌++◌, arith, length,
}
use fastvid.Rtp.{HeaderFields, HeaderExtension, LatencyExtension, default_fields, default_extension}
use fastvid.Rtp.Latency.{serialize, build_header_extension}
use fastvid.Rtp.Latency
use fastvid.Rtp.Latency.Laws.{parse_lem}
use fastvid.Rtp.Header.{write_header}
use fastvid.Rtp.Header.Written.{packet_bytes, write_header_lem}
use fastvid.Rtp.Parse.{Outputs, parse_header}
use fastvid.Rtp.Parse.Safety.{parse_header-ne-none}
use fastvid.Rtp.Parse.RoundTrip.{parse_header-write_header, received}
use fastvid.Rtp.Parse.Long.{parse_header-counted, counted}
use fastvid.Rtp.Parse.Stamps.{IsStamped, parse-parse_header}
use fastvid.Rtp.Parse.RoundTrip.{carried}
use fastvid.Rtp.Parse.Typed.{IsTyped, parse_header-IsTyped}
use fastvid.Rtp.Parse.Again.{write_header-parse_header}
use fastvid.Rtp.Parse.Grammar.Exact.{IsDecided, parse_header-exact}

abbrev stamps : LatencyExtension
stamps = record { capture_timestamp_ns = 1000; transport_send_timestamp_ns = 2 ^ 40 + 3 }

abbrev four_bytes : HeaderExtension
four_bytes = record { profile_id = 0x5353; payload = 1 ∷ 2 ∷ 3 ∷ 4 ∷ [] }

parse_lem_example : Latency.parse four_bytes (some stamps) ≡ none
parse_lem_example = parse_lem four_bytes (some stamps)

abbrev video : HeaderFields
video = record default_fields {
  marker = true;
  payload_type = 200;
  sequence_number = 65535;
  timestamp = 90000;
  ssrc = 0xdeadbeef;
}

video_written :
    write_header video (some four_bytes) (some [])
    ≡ (true, some (packet_bytes video (some four_bytes)))
video_written = write_header_lem video (some four_bytes) [] (omega arith)

abbrev outputs : Outputs
outputs = record {
  fields = some default_fields;
  total_size = some 0;
  extension = some default_extension;
}

parse_header-ne-none_example : parse_header (some (0x90 ∷ 0 ∷ [])) 2 outputs ≢ none
parse_header-ne-none_example = parse_header-ne-none (0x90 ∷ 0 ∷ []) 2 outputs (omega arith)

-- Two contributing sources, an extension of one word, and two bytes of media.
abbrev two_sources : List ℕ
two_sources =
    0x92 ∷ 0xe0 ∷ 255 ∷ 255 ∷ 0 ∷ 1 ∷ 95 ∷ 144 ∷ 222 ∷ 173 ∷ 190 ∷ 239 ∷ 0 ∷ 0 ∷ 0 ∷ 7 ∷ 0 ∷ 0 ∷ 0
    ∷ 8 ∷ 83 ∷ 83 ∷ 0 ∷ 1 ∷ 1 ∷ 2 ∷ 3 ∷ 4 ∷ 5 ∷ 6 ∷ []

parse_header-exact_example : IsDecided two_sources (7 ∷ 8 ∷ []) outputs
parse_header-exact_example =
    parse_header-exact two_sources (7 ∷ 8 ∷ []) outputs (omega arith) (ground arith)

parse_header-write_header_example :
    let packet = packet_bytes video (some four_bytes) in
    parse_header (some (packet ++ 5 ∷ 6 ∷ [])) (length (packet ++ 5 ∷ 6 ∷ [])) outputs
    ≡ some (true, received video four_bytes (length packet) outputs)
parse_header-write_header_example =
    parse_header-write_header video (some four_bytes) [] (packet_bytes video (some four_bytes))
      (5 ∷ 6 ∷ []) outputs (omega arith) (omega arith) (ground arith) video_written

-- An extension of one word more than its length field can count.
unfoldable long_payload : List ℕ
long_payload = replicate (2 ^ 18 + 4) 7

length-long_payload : length long_payload ≡ 2 ^ 18 + 4
unfolding long_payload
length-long_payload = length-replicate {A = ℕ} (2 ^ 18 + 4) 7

abbrev long_extension : HeaderExtension
long_extension = record { profile_id = 0x5353; payload = long_payload }

long_written :
    write_header video (some long_extension) (some [])
    ≡ (true, some (packet_bytes video (some long_extension)))
long_written =
    rw (write_header_lem video (some long_extension) [] (omega arith), length-long_payload) refl

parse_header-counted_example :
    let kept = length long_payload % 2 ^ 18 in
    let all = packet_bytes video (some long_extension) ++ 5 ∷ 6 ∷ [] in
    (parse_header (some all) (length all) outputs
      ≡ some (true, received video (counted long_extension) (16 + kept) outputs))
    × (drop (16 + kept) all ≡ drop kept long_payload ++ 5 ∷ 6 ∷ [])
parse_header-counted_example =
    parse_header-counted video long_extension [] (packet_bytes video (some long_extension))
      (5 ∷ 6 ∷ []) outputs (omega arith) (omega arith) (omega (arith, length-long_payload))
      (ground arith) long_written

-- It keeps four of these bytes.
kept-long_payload : length long_payload % 2 ^ 18 ≡ 4
kept-long_payload = omega (arith, length-long_payload)

video_parsed :
    parse_header (some (packet_bytes video (some four_bytes) ++ 5 ∷ 6 ∷ [])) 22 outputs
    ≡ some (true, received video four_bytes 20 outputs)
video_parsed =
    parse_header-write_header video (some four_bytes) [] (packet_bytes video (some four_bytes))
      (5 ∷ 6 ∷ []) outputs (omega arith) (omega arith) (ground arith) video_written

parse-parse_header_example :
    (packet : List ℕ) × (h : HeaderExtension) × (out' : Outputs) × (write_header video
        (some (build_header_extension stamps))
        (some [])
      ≡ (true, some packet))
    × (parse_header (some (packet ++ 5 ∷ [])) (length (packet ++ 5 ∷ [])) outputs
        ≡ some (true, out'))
    × (out'.extension ≡ some h)
    × IsStamped stamps h
    × (Latency.parse h none ≡ some (false, none))
parse-parse_header_example =
    parse-parse_header video stamps [] (5 ∷ []) outputs default_extension none (omega arith)
      (omega arith) (omega arith) (ground arith) refl

parse_header-IsTyped_example : IsTyped (received video four_bytes 20 outputs)
parse_header-IsTyped_example =
    parse_header-IsTyped (some (packet_bytes video (some four_bytes) ++ 5 ∷ 6 ∷ [])) 22 outputs
      (received video four_bytes 20 outputs) video_parsed

write_header-parse_header_example :
    let out' = received video four_bytes 20 outputs in
    (f : HeaderFields) × (packet : List ℕ) × (out'.fields ≡ some f)
    × (write_header f out'.extension (some []) ≡ (true, some packet))
    × (parse_header (some (packet ++ [])) (length (packet ++ [])) outputs
        ≡ some (
          true,
          record {
            fields = some f;
            total_size = some (length packet);
            extension = some (carried out'.extension);
          },
        ))
write_header-parse_header_example =
    write_header-parse_header (some (packet_bytes video (some four_bytes) ++ 5 ∷ 6 ∷ [])) 22 [] []
      outputs (received video four_bytes 20 outputs) video_parsed (ground arith)
