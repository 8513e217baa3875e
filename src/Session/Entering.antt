-- ===== src/Session/Entering.antt =====
-- Starting the game adds the client to the table of players under the next runtime id, whichever
-- writes fail (internal/server/mcpe_login_flow.go).
use open_ai_mc_be_server.Prelude.{
  ℕ, ◌+◌, ◌<◌, ◌≡◌, Bool, some, refl, ap, ◌∙◌, arith, inl, inr, ==_iff,
}
use open_ai_mc_be_server.Prelude.Dict.{insert}
use open_ai_mc_be_server.Session.State.{
  await_chunk_radius, available_commands, item_registry, start_game, voxel_shapes,
  jigsaw_structure_data, SessionState, Message, Server, Client, Handler, ◌>>◌, assign,
  other_players,
}
use open_ai_mc_be_server.Session.Players.{write_packet, add_player_to}
use open_ai_mc_be_server.Session.Packets.{set_state, identity_of}
use open_ai_mc_be_server.Session.Handlers.{
  enter_game, start_game_for, take_runtime_id, init_player_state,
}
use open_ai_mc_be_server.Session.Writes.{
  WritesOnly, Outcome-cases, write_packet-WritesOnly, send_initial_player_sync-WritesOnly,
}

-- The table of players and the client's runtime id stay.
record Placed (ref : ℕ) (s s' : Server) : Type 0 where
  same_players : s'.players ≡ s.players
  same_id : (s'.clients ref).runtime_id ≡ (s.clients ref).runtime_id

record Places (ref : ℕ) (m : Handler) : Type 0 where
  placed : (s : Server) → Placed ref s (m s).1

WritesOnly-Places : (ref : ℕ) (m : Handler) → WritesOnly m → Places ref m
WritesOnly-Places ref m w = record {
  placed = λ s. record {
    same_players = (w s).same_players;
    same_id = ap (λ (f : ℕ → Client). (f ref).runtime_id) (w s).same_clients;
  };
}

Places->> : (ref : ℕ) (m k : Handler) → Places ref m → Places ref k → Places ref (m >> k)
Places->> ref m k hm hk = record {
  placed = λ s.
      let first = hm.placed s in
      let second = hk.placed (m s).1 in
      elim (Outcome-cases (m s).0) [
        | inl e ↦ rw e (record {
          same_players = second.same_players ∙ first.same_players;
          same_id = second.same_id ∙ first.same_id;
        })
        | inr e ↦ rw e first
      ];
}

set_state-Places : (ref : ℕ) (state : SessionState) → Places ref (set_state ref state)
unfolding assign
set_state-Places ref state = record {
  placed = λ s. record { same_players = refl; same_id = rw ((==_iff ref ref).1 refl) refl };
}

module _ (delivers : ℕ → Message → Bool) (current : ℕ) where
  write-Places : (ref : ℕ) (m : Message) → Places ref (write_packet delivers ref m)
  write-Places ref m = WritesOnly-Places ref _ (write_packet-WritesOnly delivers ref m)

  entered :
      (ref : ℕ) (s : Server)
      → Placed ref (add_player_to delivers ref s) (enter_game delivers current ref s).1
  unfolding enter_game
  entered ref s =
      (Places->> ref _ _
          (Places->> ref _ _
            (Places->> ref _ _
              (Places->> ref _ _
                (Places->> ref _ _
                  (Places->> ref _ _ (write-Places ref jigsaw_structure_data)
                    (write-Places ref voxel_shapes))
                  (write-Places ref start_game))
                (write-Places ref item_registry))
              (write-Places ref available_commands))
            (WritesOnly-Places ref _
              (send_initial_player_sync-WritesOnly delivers ref (other_players s ref))))
          (set_state-Places ref await_chunk_radius)).placed
        (add_player_to delivers ref s)

  -- Before the client enters the game.
  abbrev named : ℕ → ℕ → Server → Server
  named ref u s =
      let numbered = (take_runtime_id delivers current ref s).1 in
      (init_player_state delivers current ref (some u) numbered).1

  named-id :
      (ref u : ℕ) (s : Server)
      → s.next_id + 1 < 18446744073709551616
      → ((named ref u s).clients ref).runtime_id ≡ s.next_id + 1
  unfolding assign
  named-id ref u s small = rw ((==_iff ref ref).1 refl) (omega arith)

  named-players : (ref u : ℕ) (s : Server) → (named ref u s).players ≡ s.players
  unfolding assign
  named-players ref u s = refl

  start_game-named :
      (ref u : ℕ) (s : Server)
      → identity_of (s.clients ref).login ≡ some u
      → start_game_for delivers current ref s ≡ enter_game delivers current ref (named ref u s)
  unfolding start_game_for assign
  start_game-named ref u s e = rw e refl

  add-players :
      (ref : ℕ) (s : Server)
      → ((add_player_to delivers ref s).players ≡ insert (s.clients ref).runtime_id ref s.players)
        × (((add_player_to delivers ref s).clients ref).runtime_id ≡ (s.clients ref).runtime_id)
  unfolding add_player_to
  add-players ref s = (refl, refl)

  -- The game starts under the next runtime id.
  pub started :
      (ref u : ℕ) (s : Server)
      → identity_of (s.clients ref).login ≡ some u
      → s.next_id + 1 < 18446744073709551616
      → let s' = (start_game_for delivers current ref s).1 in
        (s'.players ≡ insert (s.next_id + 1) ref s.players)
        × ((s'.clients ref).runtime_id ≡ s.next_id + 1)
  started ref u s e small =
      let enter = entered ref (named ref u s) in
      let added = add-players ref (named ref u s) in
      let id = named-id ref u s small in
      rw (start_game-named ref u s e) (
        enter.same_players ∙ added.0 ∙ rw (id, named-players ref u s) refl,
        enter.same_id ∙ added.1 ∙ id,
      )
