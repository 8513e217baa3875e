-- ===== src/Network/Session.antt =====
-- The session of a connection (internal/network/mcpe/session.go): it writes each packet as a batch of
-- its own and handles the packets of a batch in order. What `EncodePacket` makes of a packet is its
-- payload; `handle` is `DecodePacket` and the client's `HandlePacket`, false for an error.
use open_ai_mc_be_server.Prelude.{
  Bool, true, false, List, [], ◌∷◌, Option, none, some, if◌then◌else◌,
}
use open_ai_mc_be_server.Network.Codec.{
  Bytes, Library, Codec, enable_encryption, encode_batch, decode_batch,
}

pub record Session : Type 0 where
  pub codec : Codec
  pub compressed : Bool

-- A session with the client that handles its packets.
pub record Connection (C : Type 0) : Type 0 where
  pub session : Session
  pub client : C

abbrev pub enable_compression : Session → Session
enable_compression s = record s { compressed = true }

abbrev pub enable_session_encryption : Bytes → Session → Session
enable_session_encryption key s = record s { codec = enable_encryption key s.codec }

-- The copy of the codec that reads or writes one batch.
abbrev pub codec_for : Bool → Codec → Codec
codec_for true c = c
codec_for false c = record c { compression = none }

-- The copy shares the state of the encryption with the session's codec, and nothing else.
abbrev pub after : Codec → Session → Session
after c s = record s { codec = record (s.codec) { encryption = c.encryption } }

module _ (lib : Library) where
  -- The bytes that go to the connection, or none after an error.
  unfoldable pub write_payload : Bool → Bytes → Session → Option Bytes × Session
  write_payload compressed payload s =
      let (batch, c) = encode_batch lib (payload ∷ []) (codec_for compressed s.codec) in
      (batch, after c s)

  -- `WritePacket` and `WritePacketUncompressed`
  abbrev pub write_session_packet : Bytes → Session → Option Bytes × Session
  write_session_packet payload s = write_payload s.compressed payload s

  abbrev pub write_packet_uncompressed : Bytes → Session → Option Bytes × Session
  write_packet_uncompressed payload s = write_payload false payload s

  unfoldable pub decode_session_batch : Bytes → Session → Option (List Bytes) × Session
  decode_session_batch wire s =
      let (packets, c) = decode_batch lib wire (codec_for s.compressed s.codec) in
      (packets, after c s)

  -- A handler may write to the session and change its settings.
  module _ {C : Type 0} (handle : Bytes → Connection C → Bool × Connection C) where
    -- The loop over the payloads stops at the first error.
    unfoldable pub handle_payloads : List Bytes → Connection C → Bool × Connection C
    handle_payloads [] state = (true, state)
    handle_payloads (payload ∷ others) state =
        let (fine, state') = handle payload state in
        if fine then handle_payloads others state' else (false, state')

    abbrev pub handle_decoded : Option (List Bytes) → Connection C → Bool × Connection C
    handle_decoded none state = (false, state)
    handle_decoded (some packets) state = handle_payloads packets state

    unfoldable pub handle_batch : Bytes → Connection C → Bool × Connection C
    handle_batch wire state =
        let (packets, s) = decode_session_batch wire state.session in
        handle_decoded packets (record state { session = s })
