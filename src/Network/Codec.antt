-- ===== src/Network/Codec.antt =====
-- Batches of packets (internal/network/mcpe/codec.go). A byte slice is a list of numbers below 256,
-- an error is `none`.
use open_ai_mc_be_server.Prelude.{
  ℕ, zero, suc, ◌+◌, ◌-◌, ◌/◌, ◌%◌, Bool, true, false, ◌&&◌, List, [], ◌∷◌, ◌++◌, Option, none,
  some, ltb, ◌==◌, if◌then◌else◌, length, take, drop,
}

abbrev pub Bytes : Type 0
Bytes = List ℕ

-- `packet.Compression` of gophertunnel.
pub record Compression : Type 0 where
  pub encode_compression : ℕ
  pub compress : Bytes → Option Bytes
  pub decompress : Bytes → ℕ → Option Bytes

-- What the code takes from gophertunnel (varuint32, `NopCompression`, `CompressionByID`) and from Go's
-- cryptography: SHA-256, and the key stream of AES in counter mode, which a key and the number of
-- bytes already used determine.
pub record Library : Type 0 where
  pub write_varuint32 : ℕ → Bytes
  pub read_varuint32 : Bytes → Option (ℕ × Bytes)
  pub nop_compression : Compression
  pub compression_by_id : ℕ → Option Compression
  pub sha256 : Bytes → Bytes
  pub xor_key_stream : Bytes → ℕ → Bytes → Bytes

-- `used` is the state of the stream.
pub record CryptState : Type 0 where
  pub counter : ℕ
  pub key : Bytes
  pub used : ℕ

pub record BatchEncryption : Type 0 where
  pub outgoing : CryptState
  pub incoming : CryptState

pub record Codec : Type 0 where
  pub compression : Option Compression
  pub compression_threshold : ℕ
  pub max_decompressed_len : ℕ
  pub enable_limits : Bool
  pub encryption : Option BatchEncryption

abbrev pub batch_header : ℕ
batch_header = 254

abbrev pub maximum_batch_items : ℕ
maximum_batch_items = 812

-- `binary.LittleEndian.PutUint64`
unfoldable pub little_endian : ℕ → ℕ → Bytes
little_endian zero n = []
little_endian (suc k) n = n % 256 ∷ little_endian k (n / 256)

-- Every client and the server start from the same key.
abbrev pub new_crypt_state : Bytes → CryptState
new_crypt_state key = record { counter = 0; key = key; used = 0 }

abbrev pub new_batch_encryption : Bytes → BatchEncryption
new_batch_encryption key = record { outgoing = new_crypt_state key; incoming = new_crypt_state key }

abbrev pub enable_encryption : Bytes → Codec → Codec
enable_encryption key c = record c { encryption = some (new_batch_encryption key) }

-- What the loop over the packets of a body gives. The model stops it after a number of rounds, which
-- is told apart from the error of a body that is not well formed.
pub data Packets : Type 0 where
  out_of_rounds : Packets
  malformed : Packets
  packets_read : List Bytes → Packets

module _ (lib : Library) where
  -- The first 8 bytes of the hash of the counter, the data and the key.
  unfoldable pub checksum : CryptState → Bytes → Bytes
  checksum state body = take 8 (lib.sha256 (little_endian 8 state.counter ++ (body ++ state.key)))

  abbrev pub advance : ℕ → CryptState → CryptState
  advance n state = record state { used = state.used + n }

  abbrev pub count_packet : CryptState → CryptState
  count_packet state = record state { counter = (state.counter + 1) % 18446744073709551616 }

  -- `encrypt` on what follows the header byte.
  unfoldable pub encrypt : CryptState → Bytes → Bytes × CryptState
  encrypt state body =
      let whole = body ++ checksum state body in
      (lib.xor_key_stream state.key state.used whole, advance (length whole) (count_packet state))

  unfoldable pub decrypt : CryptState → Bytes → Bytes × CryptState
  decrypt state body = (lib.xor_key_stream state.key state.used body, advance (length body) state)

  -- `bytes.Equal`
  abbrev pub bytes_equal : Bytes → Bytes → Bool
  bytes_equal [] [] = true
  bytes_equal [] (b ∷ bs) = false
  bytes_equal (a ∷ xs) [] = false
  bytes_equal (a ∷ xs) (b ∷ bs) = (a == b) && bytes_equal xs bs

  -- `verify`, and the body without the checksum. The counter goes on unless the body is too short.
  unfoldable pub verify : CryptState → Bytes → Option Bytes × CryptState
  verify state body =
      let end = length body - 8 in
      if ltb (length body) 8
      then (none, state)
      else if bytes_equal (drop end body) (checksum state (take end body))
      then (some (take end body), count_packet state)
      else (none, count_packet state)

  unfoldable pub encode_body : List Bytes → Bytes
  encode_body [] = []
  encode_body (payload ∷ packets) =
      lib.write_varuint32 (length payload % 4294967296) ++ (payload ++ encode_body packets)

  abbrev pub with_outgoing : CryptState → BatchEncryption → Codec → Codec
  with_outgoing state enc c = record c {
    encryption = some (record { outgoing = state; incoming = enc.incoming });
  }

  abbrev pub with_incoming : CryptState → BatchEncryption → Codec → Codec
  with_incoming state enc c = record c {
    encryption = some (record { outgoing = enc.outgoing; incoming = state });
  }

  -- The batch after its header, encrypted if the codec is.
  abbrev pub seal : Option BatchEncryption → Bytes → Codec → Bytes × Codec
  seal none body c = (batch_header ∷ body, c)
  seal (some enc) body c =
      let (sealed, state) = encrypt enc.outgoing body in
      (batch_header ∷ sealed, with_outgoing state enc c)

  abbrev pub chosen : Compression → ℕ → Bytes → Compression
  chosen compression threshold body =
      if ltb (length body) threshold then lib.nop_compression else compression

  abbrev pub tag : Compression → Option Bytes → Option Bytes
  tag compression none = none
  tag compression (some body) = some (compression.encode_compression % 256 ∷ body)

  unfoldable pub compress_body : Option Compression → ℕ → Bytes → Option Bytes
  compress_body none threshold body = some body
  compress_body (some compression) threshold body =
      let c = chosen compression threshold body in tag c (c.compress body)

  abbrev pub seal_if : Option Bytes → Codec → Option Bytes × Codec
  seal_if none c = (none, c)
  seal_if (some body) c = let (batch, c') = seal c.encryption body c in (some batch, c')

  unfoldable pub encode_batch : List Bytes → Codec → Option Bytes × Codec
  encode_batch packets c =
      seal_if (compress_body c.compression c.compression_threshold (encode_body packets)) c

  -- A batch after its header: decrypted and checked, if the codec is encrypted.
  abbrev pub unseal : Option BatchEncryption → Bytes → Codec → Option Bytes × Codec
  unseal none body c = (some body, c)
  unseal (some enc) body c =
      let (plain, state) = decrypt enc.incoming body in
      let (checked, state') = verify state plain in (checked, with_incoming state' enc c)

  -- `compression != codec.Compression`; an algorithm has one id.
  abbrev pub expand : Option Compression → Compression → Bytes → ℕ → Option Bytes
  expand none expected body limit = none
  expand (some found) expected body limit =
      if found.encode_compression == expected.encode_compression
      then found.decompress body limit
      else none

  unfoldable pub decompress_body : Option Compression → Bytes → ℕ → Option Bytes
  decompress_body none body limit = some body
  decompress_body (some compression) [] limit = none
  decompress_body (some compression) (id ∷ body) limit =
      if id == 255 then some body else expand (lib.compression_by_id id) compression body limit

  abbrev pub prepend : Bytes → Packets → Packets
  prepend payload out_of_rounds = out_of_rounds
  prepend payload malformed = malformed
  prepend payload (packets_read packets) = packets_read (payload ∷ packets)

  abbrev pub next_payload : (Bytes → Packets) → Option (ℕ × Bytes) → Packets
  next_payload others none = malformed
  next_payload others (some (n, rest)) =
      if ltb (length rest) n then malformed else prepend (take n rest) (others (drop n rest))

  -- The loop over the buffer, for a number of rounds.
  unfoldable pub read_packets : ℕ → Bytes → Packets
  read_packets rounds [] = packets_read []
  read_packets zero (b ∷ bs) = out_of_rounds
  read_packets (suc rounds) (b ∷ bs) =
      next_payload (read_packets rounds) (lib.read_varuint32 (b ∷ bs))

  abbrev pub limited : Bool → Packets → Option (List Bytes)
  limited limits out_of_rounds = none
  limited limits malformed = none
  limited limits (packets_read packets) =
      if ltb maximum_batch_items (length packets) && limits then none else some packets

  -- Each round takes a byte at least, so as many rounds as the body has bytes are enough.
  abbrev pub read_body : Option Bytes → Codec → Option (List Bytes)
  read_body none c = none
  read_body (some body) c = limited c.enable_limits (read_packets (length body) body)

  abbrev pub opened : Option Bytes → Codec → Option (List Bytes)
  opened none c = none
  opened (some body) c = read_body (decompress_body c.compression body c.max_decompressed_len) c

  unfoldable pub decode_batch : Bytes → Codec → Option (List Bytes) × Codec
  decode_batch [] c = (some [], c)
  decode_batch (header ∷ body) c =
      if header == batch_header
      then (let (plain, c') = unseal c.encryption body c in (opened plain c, c'))
      else (none, c)
