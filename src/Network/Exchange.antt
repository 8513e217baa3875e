-- ===== src/Network/Exchange.antt =====
-- A session that writes and the session at the other end (internal/network/mcpe/session.go).
use open_ai_mc_be_server.Prelude.{
  ℕ, ◌≡◌, refl, ap, Bool, true, false, List, [], ◌∷◌, ◌++◌, Option, none, some,
}
use open_ai_mc_be_server.Network.Codec.{Bytes, Compression, Library, Codec, encode_batch}
use open_ai_mc_be_server.Network.Session.{
  Session, codec_for, after, write_payload, write_session_packet, decode_session_batch,
}
use open_ai_mc_be_server.Network.Stream.{Laws, Trusted}
use open_ai_mc_be_server.Network.RoundTrip.{IsPaired, Fits, decode_batch-encode_batch}

-- The two ends of a connection.
pub record InStep (compression : Option Compression) (limit : ℕ) (writer reader : Session)
    : Type 0 where
  pub same_flag : reader.compressed ≡ writer.compressed
  pub paired : IsPaired compression limit writer.codec reader.codec

abbrev pub AllPayloadsFit : Library → ℕ → List Bytes → Type 0
AllPayloadsFit lib limit [] = Unit {0}
AllPayloadsFit lib limit (p ∷ payloads) =
    Fits lib limit (p ∷ []) × AllPayloadsFit lib limit payloads

abbrev pub wire_then : Option Bytes → Option (List Bytes) → Option (List Bytes)
wire_then none wires = none
wire_then (some wire) none = none
wire_then (some wire) (some wires) = some (wire ∷ wires)

abbrev pub packets_then : Option (List Bytes) → Option (List Bytes) → Option (List Bytes)
packets_then none others = none
packets_then (some packets) none = none
packets_then (some packets) (some others) = some (packets ++ others)

wire_then-some :
    (a : Option Bytes) (b : Option (List Bytes)) (wires : List Bytes)
    → wire_then a b ≡ some wires
    → (wire : Bytes) × (others : List Bytes) × (a ≡ some wire)
      × (b ≡ some others)
      × (wires ≡ wire ∷ others)
wire_then-some none b wires e = cc
wire_then-some (some wire) none wires e = cc
wire_then-some (some wire) (some others) wires e = (wire, others, refl, refl, cc)

module _ (lib : Library) where
  -- Writes, one after the other, up to the first error.
  unfoldable pub write_all : List Bytes → Session → Option (List Bytes)
  write_all [] s = some []
  write_all (p ∷ payloads) s =
      let (wire, s') = write_session_packet lib p s in wire_then wire (write_all payloads s')

  unfoldable pub read_all : List Bytes → Session → Option (List Bytes)
  read_all [] s = some []
  read_all (wire ∷ wires) s =
      let (packets, s') = decode_session_batch lib wire s in
      packets_then packets (read_all wires s')

  module _ (laws : Laws lib) where
    -- The copies for one batch.
    copies-IsPaired :
        (flag flag' : Bool) (compression : Option Compression) (limit : ℕ) (c d : Codec)
        → flag' ≡ flag
        → IsPaired compression limit c d
        → Trusted lib compression
        → (chosen : Option Compression) × Trusted lib chosen
          × IsPaired chosen limit (codec_for flag c) (codec_for flag' d)
    copies-IsPaired true true compression limit c d same p t = (compression, t, p)
    copies-IsPaired true false compression limit c d same p t = cc
    copies-IsPaired false true compression limit c d same p t = cc
    copies-IsPaired false false compression limit c d same p t = (
      none,
      tt,
      record { sends = refl; receives = refl; accepts = p.accepts; same_stream = p.same_stream },
    )

    pub payload-InStep :
        (compression : Option Compression) (limit : ℕ) (s r : Session) (p : Bytes) {wire : Bytes}
        {s' : Session}
        → Trusted lib compression
        → InStep compression limit s r
        → Fits lib limit (p ∷ [])
        → write_session_packet lib p s ≡ (some wire, s')
        → let (packets, r') = decode_session_batch lib wire r in
          (packets ≡ some (p ∷ [])) × InStep compression limit s' r'
    unfolding write_payload decode_session_batch
    payload-InStep compression limit s r p {wire = wire} {s' = s'} t step fits e =
        let c = codec_for s.compressed s.codec in
        let made = encode_batch lib (p ∷ []) c in
        let (chosen, trusted, copies) =
          copies-IsPaired s.compressed r.compressed compression limit s.codec r.codec step.same_flag
            step.paired t in
        let batch : made ≡ (some wire, made.1) =
          ap (λ (o : Option Bytes × Session). (o.0, made.1)) e in
        let read =
          decode_batch-encode_batch lib laws chosen limit c (codec_for r.compressed r.codec)
            (p ∷ []) trusted copies fits batch in
        let next : after made.1 s ≡ s' = ap (λ (o : Option Bytes × Session). o.1) e in
        rw (← next) (
          read.0,
          record {
            same_flag = step.same_flag;
            paired = record {
              sends = step.paired.sends;
              receives = step.paired.receives;
              accepts = step.paired.accepts;
              same_stream = read.1.same_stream;
            };
          },
        )

    -- Under the documented laws of the libraries, if two sessions are in step (the same
    -- compression, flag and limit, and the reader's incoming cipher stream and counter where
    -- the writer's outgoing ones are), and every payload is within the limits, then payloads
    -- that are written one after the other without an error are read at the other end, in
    -- order, whether encrypted or not and whether compressed or not.
    pub read_all-write_all :
        (compression : Option Compression) (limit : ℕ) (payloads : List Bytes) (s r : Session)
        {wires : List Bytes}
        → Trusted lib compression
        → InStep compression limit s r
        → AllPayloadsFit lib limit payloads
        → write_all payloads s ≡ some wires
        → read_all wires r ≡ some payloads
    unfolding write_all read_all
    read_all-write_all compression limit [] s r {wires = wires} t step fits e =
        let none_sent : [] ≡ wires = cc in rw (← none_sent) refl
    read_all-write_all compression limit (p ∷ payloads) s r {wires = wires} t step fits e =
        let sent = write_session_packet lib p s in
        let (wire, others, f, g, h) = wire_then-some sent.0 (write_all payloads sent.1) wires e in
        let first =
          payload-InStep compression limit s r p t step fits.0
            (ap (λ (o : Option Bytes). (o, sent.1)) f) in
        rw (h, first.0, read_all-write_all compression limit payloads sent.1 _ t first.1 fits.1 g)
          refl
