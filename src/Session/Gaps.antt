-- ===== src/Session/Gaps.antt =====
-- What the handlers let through: none of them but `finishResourcePackFlow` looks at the state.
use open_ai_mc_be_server.Prelude.{ap, sym, arith, ◌==◌, ℕ, Bool, true, false, ◌≡◌, ◌∙◌, none}
use open_ai_mc_be_server.Session.State.{
  player_joined, spawned_players_except, ignore, update, await_network_settings, spawned, Client,
  Message, Server, Handler, assign,
}
use open_ai_mc_be_server.Session.Players.{write_packet_to_clients, spawn_to_initialised_players}
use open_ai_mc_be_server.Session.Packets.{is_disconnected, set_local_player_as_initialised}
use open_ai_mc_be_server.Session.Handlers.{
  dispatch, handle_packet, handle_set_local_player_as_initialised,
}
use open_ai_mc_be_server.Session.Writes.{
  WritesOnly->>, spawn_to_initialised_players-WritesOnly, write_packet_to_clients-WritesOnly,
}

eqb_self : (n : ℕ) → (n == n) ≡ true
eqb_self n = ground arith

module _ (delivers : ℕ → Message → Bool) (current : ℕ) where
  -- The client that names its own runtime id is spawned, and nothing else of any client changes.
  pub initialised-clients :
      (ref id : ℕ) (s : Server)
      → id ≡ (s.clients ref).runtime_id
      → (handle_set_local_player_as_initialised delivers current ref id s).1.clients
        ≡ update ref (record (s.clients ref) { state = spawned }) s.clients
  unfolding handle_set_local_player_as_initialised assign
  initialised-clients ref id s e =
      let start : Server = record s {
        clients = update ref (record (s.clients ref) { state = spawned }) s.clients;
      } in
      let told : Handler =
        ignore (λ s'.
          write_packet_to_clients delivers (spawned_players_except s' ref) player_joined s') in
      rw (e, eqb_self)
        ((WritesOnly->> (spawn_to_initialised_players delivers ref) told
          (spawn_to_initialised_players-WritesOnly delivers ref)
          (λ s'.
            write_packet_to_clients-WritesOnly delivers (spawned_players_except s' ref)
              player_joined s')
          start).same_clients)

  -- A client that awaits the network settings, with the runtime id 0 and no login, is spawned
  -- with no login by a SetLocalPlayerAsInitialised packet that names the id 0, in online mode
  -- or not and whichever writes fail.
  pub spawned_without_login :
      (ref : ℕ) (s : Server)
      → (s.clients ref).state ≡ await_network_settings
      → (s.clients ref).runtime_id ≡ 0
      → (s.clients ref).login ≡ none
      → let after =
          ((handle_packet delivers current ref (set_local_player_as_initialised 0) s).1.clients
            ref) in
        (after.state ≡ spawned) × (after.login ≡ none)
  unfolding handle_packet dispatch
  spawned_without_login ref s st rid lg =
      let after = initialised-clients ref 0 s (sym rid) in
      rw live (
        ap (λ (f : ℕ → Client). (f ref).state) after ∙ ap (λ (c : Client). c.state) here,
        ap (λ (f : ℕ → Client). (f ref).login) after ∙ ap (λ (c : Client). c.login) here ∙ lg,
      )
    where
      live : is_disconnected (s.clients ref).state ≡ false
      live = rw st

      here :
          update ref (record (s.clients ref) { state = spawned }) s.clients ref
          ≡ record (s.clients ref) { state = spawned }
      here = rw eqb_self
