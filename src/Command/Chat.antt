-- ===== src/Command/Chat.antt =====
-- Chat and command packets of a client (internal/server/mcpe_commands.go, `handleText` and
-- `handleCommandRequest`). What a packet brings is bytes, of which `Dispatch` gets the runes; its answers
-- are texts of runes. `texts` are the refusals' texts. A panic of `Dispatch` is a failure here.
use open_ai_mc_be_server.Prelude.{
  ℕ, Bool, true, false, not, ◌||◌, List, [], ◌∷◌, ◌++◌, take, ◌==◌, if◌then◌else◌,
}
use open_ai_mc_be_server.Session.State.{Server, Outcome, done, failed, is_spawned, spawned_players}
use open_ai_mc_be_server.Command.Args.{Text}
use open_ai_mc_be_server.Command.Runes.{Bytes, runes}
use open_ai_mc_be_server.Command.Registry.{Registry, is_blank}
use open_ai_mc_be_server.Command.Dispatch.{
  Invocation, Result, Reply, bad_arguments, no_command_entered, unknown_command, no_permission,
  panics, finished, dispatch,
}

pub data TextPacket : Type 0 where
  chat : (source : ℕ) → (message : Bytes) → TextPacket
  raw : (message : Text) → TextPacket
  command_output : (success : Bool) → (success_count : ℕ) → (messages : List Text) → TextPacket

-- What the executors change, and the packets that went out, in order.
pub record Room (S : Type 0) : Type 0 where
  pub server : Server
  pub host : S
  pub sent : List (ℕ × TextPacket)

abbrev pub is_panic : Reply → Bool
is_panic panics = true
is_panic bad_arguments = false
is_panic no_command_entered = false
is_panic unknown_command = false
is_panic no_permission = false
is_panic (finished result) = false

abbrev pub result_of : (Reply → List Text) → Reply → Result
result_of texts (finished result) = result
result_of texts panics = record { success = false; messages = [] }
result_of texts bad_arguments = record { success = false; messages = texts bad_arguments }
result_of texts no_command_entered = record { success = false; messages = texts no_command_entered }
result_of texts unknown_command = record { success = false; messages = texts unknown_command }
result_of texts no_permission = record { success = false; messages = texts no_permission }

unfoldable pub without_nul : Bytes → Bytes
without_nul [] = []
without_nul (r ∷ rs) = let rest = without_nul rs in if r == 0 then rest else r ∷ rest

abbrev pub max_chat_message_bytes : ℕ
max_chat_message_bytes = 512

-- `strings.HasPrefix(message, "/")`
abbrev pub is_command : Bytes → Bool
is_command [] = false
is_command (r ∷ rs) = r == b'/'

abbrev pub RoomHandler : Type 0 → Type 0
RoomHandler S = Room S → Outcome × Room S

abbrev pub continue_room : {S : Type 0} → Outcome × Room S → RoomHandler S → Outcome × Room S
continue_room (done, s) k = k s
continue_room (failed, s) k = (failed, s)

-- `trim_bytes` is strings.TrimSpace of a string's bytes, `trim_space` of its runes.
module _ (trim_bytes : Bytes → Bytes) where
  unfoldable pub clean_chat_message : Bytes → Bytes
  clean_chat_message message = take max_chat_message_bytes (trim_bytes (without_nul message))

module _ {S : Type 0} (delivers : ℕ → TextPacket → Bool) where
  unfoldable pub write_text : ℕ → TextPacket → RoomHandler S
  write_text ref pk s =
      if delivers ref pk then (done, record s { sent = s.sent ++ (ref, pk) ∷ [] }) else (failed, s)

  -- `broadcastText`, for the players that are spawned.
  unfoldable pub write_texts : List ℕ → TextPacket → RoomHandler S
  write_texts [] pk s = (done, s)
  write_texts (ref ∷ refs) pk s = continue_room (write_text ref pk s) (write_texts refs pk)

  unfoldable pub send_raw_texts : ℕ → List Text → RoomHandler S
  send_raw_texts ref [] s = (done, s)
  send_raw_texts ref (m ∷ messages) s =
      continue_room (write_text ref (raw m) s) (send_raw_texts ref messages)

  -- The parameters of Command.Dispatch; `allowed` is `HasPermission` of a client.
  module _ (trim_bytes : Bytes → Bytes) (to_lower trim_space : Text → Text)
      (sort_strings : List Text → List Text) (run : ℕ → Invocation → S → Result × S)
      (reg : Registry) (allowed : ℕ → Text → Bool) (texts : Reply → List Text) where
    abbrev pub dispatched : ℕ → Bytes → S → Reply × S
    dispatched ref line host =
        dispatch to_lower trim_space sort_strings run reg (allowed ref) (runes line) host

    unfoldable pub run_chat_command : ℕ → Bytes → RoomHandler S
    run_chat_command ref message s =
        let (reply, host) = dispatched ref message s.host in
        if is_panic reply
        then (failed, s)
        else send_raw_texts ref (result_of texts reply).messages (record s { host = host })

    abbrev pub say_or_run : ℕ → Bytes → RoomHandler S
    say_or_run ref message s =
        if is_blank message
        then (done, s)
        else if is_command message
        then run_chat_command ref message s
        else write_texts (spawned_players s.server) (chat ref message) s

    -- `is_chat`: the packet's type is chat.
    unfoldable pub handle_text : ℕ → (is_chat : Bool) → Bytes → RoomHandler S
    handle_text ref is_chat given s =
        if not (is_spawned (s.server.clients ref).state) || not is_chat
        then (done, s)
        else say_or_run ref (clean_chat_message trim_bytes given) s

    abbrev pub command_success_count : Result → ℕ
    command_success_count result = if result.success then 1 else 0

    unfoldable pub write_command_output : ℕ → Result → RoomHandler S
    write_command_output ref result =
        write_text ref
          (command_output result.success (command_success_count result) result.messages)

    abbrev pub answer_request : ℕ → Bytes → RoomHandler S
    answer_request ref line s =
        let (reply, host) = dispatched ref line s.host in
        if is_panic reply
        then (failed, s)
        else write_command_output ref (result_of texts reply) (record s { host = host })

    -- `refusal` is the text for an origin that is no player, or a line without a slash.
    unfoldable pub handle_command_request :
        (refusal : Bool → Text) → ℕ → (from_player : Bool) → Bytes → RoomHandler S
    handle_command_request refusal ref from_player line s =
        if not (is_spawned (s.server.clients ref).state)
        then (done, s)
        else if not from_player
        then write_command_output ref (record { success = false; messages = refusal false ∷ [] }) s
        else if not (is_command (trim_bytes line))
        then write_command_output ref (record { success = false; messages = refusal true ∷ [] }) s
        else answer_request ref line s
