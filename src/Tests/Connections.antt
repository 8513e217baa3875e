-- ===== src/Tests/Connections.antt =====
-- Two ends of an encrypted connection (internal/network/mcpe/codec.go and session.go), with a library
-- that writes a length as one number, flips the lowest bit of each byte in place of AES, and copies
-- in place of compressing.
use open_ai_mc_be_server.Prelude.{
  ◌≢◌, ap, ◌<◌, length, true, sym, length-map, ℕ, ◌+◌, ◌-◌, ◌%◌, ◌≡◌, refl, List, [], ◌∷◌, Option,
  some, none, arith, replicate, ◌==◌, if◌then◌else◌, map,
}
use open_ai_mc_be_server.Network.Codec.{
  out_of_rounds, Bytes, Compression, Library, Codec, new_batch_encryption, encode_batch,
  read_packets, encode_body, checksum, encrypt, compress_body, little_endian,
}
use open_ai_mc_be_server.Network.Session.{Session, write_payload}
use open_ai_mc_be_server.Network.Stream.{Laws, Restores, Shortens, read_packets_fuel}
use open_ai_mc_be_server.Network.RoundTrip.{IsPaired, Fits}
use open_ai_mc_be_server.Network.Exchange.{InStep, write_all, read_all, read_all-write_all}

abbrev read_one : Bytes → Option (ℕ × Bytes)
read_one [] = none
read_one (n ∷ rest) = some (n, rest)

abbrev toggle : ℕ → ℕ
toggle b = if b % 2 == 0 then b + 1 else b - 1

abbrev copy : ℕ → Compression
copy id = record {
  encode_compression = id;
  compress = λ body. some body;
  decompress = λ body limit. some body;
}

abbrev small_library : Library
small_library = record {
  write_varuint32 = λ n. n ∷ [];
  read_varuint32 = read_one;
  nop_compression = copy 65535;
  compression_by_id = λ id. if id == 1 then some (copy 1) else none;
  sha256 = λ body. replicate 32 7;
  xor_key_stream = λ key used body. map toggle body;
}

toggle_twice : (b : ℕ) → toggle (toggle b) ≡ b
toggle_twice b = ground arith

map-toggle_twice : (bs : Bytes) → map toggle (map toggle bs) ≡ bs
map-toggle_twice [] = refl
map-toggle_twice (b ∷ bs) = rw (toggle_twice b, map-toggle_twice bs) refl

small-Laws : Laws small_library
small-Laws = record {
  read_written = λ n rest small. refl;
  read_empty = refl;
  xor_twice = λ key used body. map-toggle_twice body;
  xor_length = λ key used body. length-map body toggle;
  hash_length = λ body. refl;
  nop_id = refl;
  nop_copies = λ body. refl;
}

copy-Restores : Restores small_library (copy 1)
copy-Restores = record {
  small_id = omega arith;
  found = refl;
  restores = λ body z limit e le. sym e;
}

read_one-shorter :
    (body : Bytes) (n : ℕ) (rest : Bytes)
    → read_one body ≡ some (n, rest)
    → length rest < length body
read_one-shorter [] n rest e = cc
read_one-shorter (b ∷ bs) n rest e =
    let pair : (b, bs) ≡ (n, rest) = cc in
    let same : bs ≡ rest = ap (λ (p : ℕ × Bytes). p.1) pair in rw (← same) (omega arith)

one-Shortens : Shortens small_library
one-Shortens = record { shorter = read_one-shorter }

abbrev codec : Codec
codec = record {
  compression = some (copy 1);
  compression_threshold = 3;
  max_decompressed_len = 100;
  enable_limits = true;
  encryption = some (new_batch_encryption (5 ∷ 6 ∷ []));
}

codec-IsPaired : IsPaired (some (copy 1)) 100 codec codec
codec-IsPaired = record { sends = refl; receives = refl; accepts = refl; same_stream = refl }

abbrev packets : List Bytes
packets = (1 ∷ 2 ∷ []) ∷ (3 ∷ []) ∷ []

-- What the two packets come to on the wire.
abbrev wire : Bytes
wire = 254 ∷ 0 ∷ 3 ∷ 0 ∷ 3 ∷ 0 ∷ 2 ∷ replicate 8 6

abbrev session : Session
session = record { codec = codec; compressed = true }

session-InStep : InStep (some (copy 1)) 100 session session
session-InStep = record { same_flag = refl; paired = codec-IsPaired }

one_packet-Fits : Fits small_library 100 ((1 ∷ 2 ∷ []) ∷ [])
unfolding encode_body
one_packet-Fits = record { short = (omega arith, tt); within = omega arith; few = omega arith }

-- The second payload is below the threshold, so it is not compressed.
abbrev wires : List Bytes
wires = (254 ∷ 0 ∷ 3 ∷ 0 ∷ 3 ∷ replicate 8 6) ∷ (254 ∷ 254 ∷ 0 ∷ 8 ∷ replicate 8 6) ∷ []

short_packet-Fits : Fits small_library 100 ((9 ∷ []) ∷ [])
unfolding encode_body
short_packet-Fits = record { short = (omega arith, tt); within = omega arith; few = omega arith }

wires_written : write_all small_library ((1 ∷ 2 ∷ []) ∷ (9 ∷ []) ∷ []) session ≡ some wires
unfolding write_all write_payload encode_batch encode_body compress_body encrypt checksum
    little_endian
wires_written = refl

read_all-write_all_example :
    read_all small_library wires session ≡ some ((1 ∷ 2 ∷ []) ∷ (9 ∷ []) ∷ [])
read_all-write_all_example =
    read_all-write_all small_library small-Laws (some (copy 1)) 100 ((1 ∷ 2 ∷ []) ∷ (9 ∷ []) ∷ [])
      session session copy-Restores session-InStep (one_packet-Fits, (short_packet-Fits, tt))
      wires_written

read_packets_fuel_example :
    (read_packets small_library 4 (1 ∷ 8 ∷ 0 ∷ []) ≢ out_of_rounds)
    × (read_packets small_library 4 (1 ∷ 8 ∷ 0 ∷ [])
        ≡ read_packets small_library 3 (1 ∷ 8 ∷ 0 ∷ []))
read_packets_fuel_example =
    read_packets_fuel small_library one-Shortens 4 3 (1 ∷ 8 ∷ 0 ∷ []) (omega arith) (omega arith)
