-- ===== src/Session/Ghosts.antt =====
-- A player that repeats the handshake starts the game a second time, and its first entry in the table
-- of players outlives it (internal/server/mcpe_login_flow.go, mcpe_player_sync.go).
use open_ai_mc_be_server.Prelude.{
  ℕ, ◌+◌, ◌<◌, ◌≤◌, ◌≡◌, Bool, false, some, refl, ap, ◌∙◌, arith, ◌==◌, ==_iff,
}
use open_ai_mc_be_server.Prelude.Dict.{lookup, insert, lookup-insert, lookup-erase}
use open_ai_mc_be_server.Session.State.{
  spawned, await_resource_pack_response, disconnected, Message, login_success, resource_packs_info,
  Server, Client, assign,
}
use open_ai_mc_be_server.Session.Players.{write_packet, remove_player}
use open_ai_mc_be_server.Session.Packets.{
  client_to_server_handshake, resource_pack_client_response, completed, set_state, identity_of,
}
use open_ai_mc_be_server.Session.Handlers.{
  start_game_for, finish_resource_pack_flow, handle_client_to_server_handshake,
  handle_resource_pack_client_response, dispatch, handle_packet,
}
use open_ai_mc_be_server.Session.Writes.{Same, WritesOnly->>, write_packet-WritesOnly}
use open_ai_mc_be_server.Session.Leaving.{remove_player_lem}
use open_ai_mc_be_server.Session.Entering.{started}

module _ (delivers : ℕ → Message → Bool) (current : ℕ) where
  -- The handshake is repeated.
  again :
      (ref : ℕ) (s : Server)
      → Same
          (set_state ref await_resource_pack_response s).1
          (handle_client_to_server_handshake delivers current ref s).1
  unfolding handle_client_to_server_handshake assign
  again ref s =
      WritesOnly->> (write_packet delivers ref login_success)
        (write_packet delivers ref resource_packs_info)
        (write_packet-WritesOnly delivers ref login_success)
        (write_packet-WritesOnly delivers ref resource_packs_info)
        (set_state ref await_resource_pack_response s).1

  finished :
      (ref : ℕ) (s : Server)
      → (s.clients ref).state ≡ await_resource_pack_response
      → s.has_packs ≡ false
      → handle_packet delivers current ref (resource_pack_client_response completed) s
        ≡ start_game_for delivers current ref s
  unfolding handle_packet dispatch handle_resource_pack_client_response finish_resource_pack_flow
  finished ref s e f = rw (e, f) refl

  repeated :
      (ref : ℕ) (s : Server)
      → (s.clients ref).state ≡ spawned
      → handle_packet delivers current ref client_to_server_handshake s
        ≡ handle_client_to_server_handshake delivers current ref s
  unfolding handle_packet dispatch
  repeated ref s e = rw e refl

  again-client :
      (ref : ℕ) (s : Server)
      → ((handle_client_to_server_handshake delivers current ref s).1.clients ref)
        ≡ record (s.clients ref) { state = await_resource_pack_response }
  unfolding assign
  again-client ref s =
      ap (λ (f : ℕ → Client). f ref) (again ref s).same_clients ∙ rw ((==_iff ref ref).1 refl) refl

  again-server :
      (ref : ℕ) (s : Server)
      → let s' = (handle_client_to_server_handshake delivers current ref s).1 in
        (s'.players ≡ s.players) × (s'.next_id ≡ s.next_id) × (s'.has_packs ≡ s.has_packs)
  unfolding assign
  again-server ref s =
      ((again ref s).same_players, (again ref s).same_next_id, (again ref s).same_packs)

  -- The player after both packets.
  abbrev pub restarted : ℕ → Server → Server
  restarted ref s =
      (handle_packet delivers current ref (resource_pack_client_response completed)
        (handle_packet delivers current ref client_to_server_handshake s).1).1

  restarted-table :
      (ref u : ℕ) (s : Server)
      → (s.clients ref).state ≡ spawned
      → s.has_packs ≡ false
      → identity_of (s.clients ref).login ≡ some u
      → s.next_id + 1 < 18446744073709551616
      → ((restarted ref s).players ≡ insert (s.next_id + 1) ref s.players)
        × (((restarted ref s).clients ref).runtime_id ≡ s.next_id + 1)
  restarted-table ref u s st packs e small =
      let s1 = (handle_client_to_server_handshake delivers current ref s).1 in
      let (players, next, same_packs) = again-server ref s in
      let client = again-client ref s in
      let waits : (s1.clients ref).state ≡ await_resource_pack_response =
        ap (λ (c : Client). c.state) client in
      let same_login : identity_of (s1.clients ref).login ≡ some u =
        ap (λ (c : Client). identity_of c.login) client ∙ e in
      let result = started delivers current ref u s1 same_login (rw next small) in
      let same : restarted ref s ≡ (start_game_for delivers current ref s1).1 =
        ap
          (λ r.
            (handle_packet delivers current ref (resource_pack_client_response completed) r.1).1)
          (repeated ref s st)
        ∙ ap (λ r. r.1) (finished ref s1 waits (same_packs ∙ packs)) in
      (
        ap (λ (r : Server). r.players) same ∙ result.0 ∙ rw (players, next) refl,
        ap (λ (r : Server). (r.clients ref).runtime_id) same ∙ result.1 ∙ rw next refl,
      )

  -- On a server with no resource packs whose next runtime id fits 64 bits, a spawned client
  -- whose login names a UUID, and which the table lists under its runtime id, one that was
  -- handed out, sends the handshake and the answer that it has the packs once more. After
  -- `removePlayer` the client is disconnected, and the table still lists it under the runtime
  -- id that it had first, whichever writes fail.
  pub restarted-ghost :
      (ref u : ℕ) (s : Server)
      → (s.clients ref).state ≡ spawned
      → s.has_packs ≡ false
      → identity_of (s.clients ref).login ≡ some u
      → s.next_id + 1 < 18446744073709551616
      → (s.clients ref).runtime_id ≤ s.next_id
      → lookup (s.clients ref).runtime_id s.players ≡ some ref
      → let left = (remove_player delivers ref (restarted ref s)).1 in
        (lookup (s.clients ref).runtime_id left.players ≡ some ref)
        × ((left.clients ref).state ≡ disconnected)
  restarted-ghost ref u s st packs e small le listed =
      let s2 = restarted ref s in
      let (players, id) = restarted-table ref u s st packs e small in
      let own : lookup (s2.clients ref).runtime_id s2.players ≡ some ref =
        rw (id, players)
          (lookup-insert (s.next_id + 1) (s.next_id + 1) ref s.players
            ∙ rw ((==_iff (s.next_id + 1) (s.next_id + 1)).1 refl) refl) in
      let left = remove_player_lem delivers ref s2 (rw id (omega arith)) own in
      let other : (s.next_id + 1 == (s.clients ref).runtime_id) ≡ false = ground arith in
      (
        ap (lookup (s.clients ref).runtime_id) (left.0 ∙ rw (id, players) refl)
            ∙ lookup-erase (s.next_id + 1) (s.clients ref).runtime_id
                (insert (s.next_id + 1) ref s.players)
            ∙ rw other (
                lookup-insert (s.next_id + 1) (s.clients ref).runtime_id ref s.players
                ∙ rw other listed),
        left.1,
      )
