-- ===== src/Rtp/Parse/Again.antt =====
-- What `WriteRtpHeader` makes of what `ParseRtpHeader` has read, and what is read of that.
use fastvid.Common.{
  ℕ, ◌%◌, ◌≡◌, ◌≢◌, refl, ap, ◌∙◌, true, Option, none, some, List, ◌++◌, arith, length,
}
use fastvid.Rtp.{HeaderFields, HeaderExtension}
use fastvid.Rtp.Header.{write_header}
use fastvid.Rtp.Header.Written.{packet_bytes, write_header_lem}
use fastvid.Rtp.Parse.{Outputs, parse_header}
use fastvid.Rtp.Parse.RoundTrip.{carried, asked_for, received, parse_header-write_header}
use fastvid.Rtp.Parse.Typed.{IsRead, parse_header-IsTyped}

-- The seven bits of a payload type that was read are all of it.
received-read :
    (f : HeaderFields) (h : HeaderExtension) (size : ℕ) (out : Outputs)
    → IsRead f
    → received f h size out ≡ record {
      fields = some f;
      total_size = asked_for out.total_size size;
      extension = asked_for out.extension h;
    }
received-read f h size out (v, seven) =
    let same : f.payload_type % 128 ≡ f.payload_type = omega arith in rw same refl

-- Whatever `ParseRtpHeader` accepts, with contributing sources or without: `WriteRtpHeader` accepts
-- the fields and the extension that it stores, and of the packet written, whatever media bytes
-- follow, `ParseRtpHeader` yields the same fields, the size of this packet, and the same extension,
-- unless that has no payload: such an extension comes back as none, with profile 0.
-- The pointer to the parsed fields is not null.
pub write_header-parse_header :
    (input : Option (List ℕ)) (size : ℕ) (old media : List ℕ) (out out' : Outputs)
    → parse_header input size out ≡ some (true, out')
    → out.fields ≢ none
    → (f : HeaderFields) × (packet : List ℕ) × (out'.fields ≡ some f)
      × (write_header f out'.extension (some old) ≡ (true, some packet))
      × (parse_header (some (packet ++ media)) (length (packet ++ media)) out
          ≡ some (
            true,
            record {
              fields = some f;
              total_size = asked_for out.total_size (length packet);
              extension = asked_for out.extension (carried out'.extension);
            },
          ))
write_header-parse_header input size old media out out' e present =
    let (f, stored, (v, seven), (fits, whole)) = parse_header-IsTyped input size out out' e in
    let packet = packet_bytes f out'.extension in
    let written : write_header f out'.extension (some old) ≡ (true, some packet) =
      write_header_lem f out'.extension old v.payload_type_fits ∙ rw whole refl in
    (
      f,
      packet,
      stored,
      written,
      parse_header-write_header f out'.extension old packet media out v fits present written
          ∙ ap (λ o. some (true, o))
              (received-read f (carried out'.extension) (length packet) out (v, seven)),
    )
