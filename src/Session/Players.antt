-- ===== src/Session/Players.antt =====
-- Sending, and the table of players (internal/server/mcpe_player_sync.go). `delivers` says which
-- writes succeed.
use open_ai_mc_be_server.Prelude.{
  ℕ, Bool, true, false, List, [], ◌∷◌, ◌++◌, Option, none, some, ◌==◌, if◌then◌else◌,
}
use open_ai_mc_be_server.Prelude.Dict.{lookup, insert, erase}
use open_ai_mc_be_server.Session.State.{
  disconnected, Message, player_list, player_list_remove, remove_actor, player_left, add_player,
  set_actor_data, set_actor_motion, Server, done, failed, Handler, ◌>>◌, return_ok, ignore, assign,
  is_spawned, spawned_players, spawned_players_except,
}

-- Whether `handler.players[id]` is this client.
abbrev pub holds : Option ℕ → ℕ → Bool
holds none ref = false
holds (some other) ref = other == ref

abbrev pub or_return : Bool → Handler → Handler
or_return true m = m
or_return false m = return_ok

module _ (delivers : ℕ → Message → Bool) where
  unfoldable pub write_packet : ℕ → Message → Handler
  write_packet ref m s =
      if delivers ref m then (done, record s { sent = s.sent ++ (ref, m) ∷ [] }) else (failed, s)

  unfoldable pub write_packet_to_clients : List ℕ → Message → Handler
  write_packet_to_clients [] m = return_ok
  write_packet_to_clients (ref ∷ refs) m = write_packet ref m >> write_packet_to_clients refs m

  -- The packets of `writePlayerSpawn`.
  unfoldable pub write_player_spawn : ℕ → Handler
  write_player_spawn ref =
      write_packet ref add_player
      >> write_packet ref set_actor_data
      >> write_packet ref set_actor_motion

  -- The client is told of every spawned player, then every one of them of the client.
  abbrev pub spawn_each : List ℕ → ℕ → Handler
  spawn_each [] ref = return_ok
  spawn_each (other ∷ others) ref = write_player_spawn ref >> spawn_each others ref

  abbrev pub spawn_to_each : List ℕ → Handler
  spawn_to_each [] = return_ok
  spawn_to_each (other ∷ others) = write_player_spawn other >> spawn_to_each others

  unfoldable pub spawn_to_initialised_players : ℕ → Handler
  spawn_to_initialised_players ref s =
      (spawn_each (spawned_players_except s ref) ref
          >> spawn_to_each (spawned_players_except s ref))
        s

  -- `addPlayer`, of which the callers use the players that were there before.
  unfoldable pub add_player_to : ℕ → Server → Server
  add_player_to ref s = record s { players = insert (s.clients ref).runtime_id ref s.players }

  -- `sendInitialPlayerSync`
  unfoldable pub send_initial_player_sync : ℕ → List ℕ → Handler
  send_initial_player_sync ref existing =
      write_packet_to_clients existing player_list
      >> write_packet ref player_list
      >> write_packet ref set_actor_data
      >> write_packet ref set_actor_motion

  abbrev pub table_without : ℕ → Server → Server
  table_without id s = record s { players = erase id s.players }

  -- The farewell to the spawned players.
  abbrev pub say_goodbye : ℕ → List ℕ → Handler
  say_goodbye ref others s =
      (ignore (write_packet_to_clients others player_list_remove)
          >> ignore (write_packet_to_clients others remove_actor)
          >> or_return (is_spawned (s.clients ref).state)
              (ignore (write_packet_to_clients others player_left)))
        s

  abbrev pub forget : ℕ → ℕ → Handler
  forget ref id s =
      let s' = table_without id s in
      (say_goodbye ref (spawned_players s') >> assign ref (λ c. record c { state = disconnected }))
        s'

  -- `removePlayer`, on the end of a connection.
  unfoldable pub remove_player : ℕ → Handler
  remove_player ref s =
      let id = (s.clients ref).runtime_id in
      if id == 0
      then (done, s)
      else if holds (lookup id s.players) ref
      then forget ref id s
      else (done, s)
