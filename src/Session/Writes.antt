-- ===== src/Session/Writes.antt =====
-- Sending changes neither the clients nor the table of players, whether the writes succeed or not.
use open_ai_mc_be_server.Prelude.{ℕ, Bool, List, [], ◌∷◌, ◌≡◌, ◌⊎◌, inl, inr, refl, ◌∙◌, Bool-cases}
use open_ai_mc_be_server.Session.State.{
  set_actor_motion, set_actor_data, player_list, add_player, Message, Server, Outcome, done, failed,
  Handler, ◌>>◌, spawned_players_except,
}
use open_ai_mc_be_server.Session.Players.{
  write_packet, write_packet_to_clients, write_player_spawn, spawn_each, spawn_to_each,
  spawn_to_initialised_players, send_initial_player_sync,
}

pub Outcome-cases : (o : Outcome) → (o ≡ done) ⊎ (o ≡ failed)
Outcome-cases done = inl refl
Outcome-cases failed = inr refl

-- All of the server but the list of the packets that went out.
pub record Same (s s' : Server) : Type 0 where
  pub same_clients : s'.clients ≡ s.clients
  pub same_players : s'.players ≡ s.players
  pub same_next_id : s'.next_id ≡ s.next_id
  pub same_packs : s'.has_packs ≡ s.has_packs

abbrev pub WritesOnly : Handler → Type 0
WritesOnly m = (s : Server) → Same s (m s).1

pub Same-refl : (s : Server) → Same s s
Same-refl s = record {
  same_clients = refl;
  same_players = refl;
  same_next_id = refl;
  same_packs = refl;
}

pub Same-trans : {a b c : Server} → Same a b → Same b c → Same a c
Same-trans h k = record {
  same_clients = k.same_clients ∙ h.same_clients;
  same_players = k.same_players ∙ h.same_players;
  same_next_id = k.same_next_id ∙ h.same_next_id;
  same_packs = k.same_packs ∙ h.same_packs;
}

pub WritesOnly->> : (m k : Handler) → WritesOnly m → WritesOnly k → WritesOnly (m >> k)
WritesOnly->> m k hm hk s = elim (Outcome-cases (m s).0) [
  | inl e ↦ rw e (Same-trans (hm s) (hk (m s).1))
  | inr e ↦ rw e (hm s)
]

module _ (delivers : ℕ → Message → Bool) where
  pub write_packet-WritesOnly : (ref : ℕ) (m : Message) → WritesOnly (write_packet delivers ref m)
  unfolding write_packet
  write_packet-WritesOnly ref m s = elim (Bool-cases (delivers ref m)) [
    | inl e ↦ rw e (record {
      same_clients = refl;
      same_players = refl;
      same_next_id = refl;
      same_packs = refl;
    })
    | inr e ↦ rw e (Same-refl s)
  ]

  pub write_packet_to_clients-WritesOnly :
      (refs : List ℕ) (m : Message) → WritesOnly (write_packet_to_clients delivers refs m)
  unfolding write_packet_to_clients
  write_packet_to_clients-WritesOnly [] m = Same-refl
  write_packet_to_clients-WritesOnly (ref ∷ refs) m =
      WritesOnly->> (write_packet delivers ref m) (write_packet_to_clients delivers refs m)
        (write_packet-WritesOnly ref m) (write_packet_to_clients-WritesOnly refs m)

  write_player_spawn-WritesOnly : (ref : ℕ) → WritesOnly (write_player_spawn delivers ref)
  unfolding write_player_spawn
  write_player_spawn-WritesOnly ref =
      let w = write_packet delivers ref in
      WritesOnly->> (w add_player >> w set_actor_data) (w set_actor_motion)
        (WritesOnly->> (w add_player) (w set_actor_data) (write_packet-WritesOnly ref add_player)
          (write_packet-WritesOnly ref set_actor_data))
        (write_packet-WritesOnly ref set_actor_motion)

  spawn_each-WritesOnly : (others : List ℕ) (ref : ℕ) → WritesOnly (spawn_each delivers others ref)
  spawn_each-WritesOnly [] ref = Same-refl
  spawn_each-WritesOnly (other ∷ others) ref =
      WritesOnly->> (write_player_spawn delivers ref) (spawn_each delivers others ref)
        (write_player_spawn-WritesOnly ref) (spawn_each-WritesOnly others ref)

  spawn_to_each-WritesOnly : (others : List ℕ) → WritesOnly (spawn_to_each delivers others)
  spawn_to_each-WritesOnly [] = Same-refl
  spawn_to_each-WritesOnly (other ∷ others) =
      WritesOnly->> (write_player_spawn delivers other) (spawn_to_each delivers others)
        (write_player_spawn-WritesOnly other) (spawn_to_each-WritesOnly others)

  pub spawn_to_initialised_players-WritesOnly :
      (ref : ℕ) → WritesOnly (spawn_to_initialised_players delivers ref)
  unfolding spawn_to_initialised_players
  spawn_to_initialised_players-WritesOnly ref s =
      let others = spawned_players_except s ref in
      WritesOnly->> (spawn_each delivers others ref) (spawn_to_each delivers others)
        (spawn_each-WritesOnly others ref) (spawn_to_each-WritesOnly others) s

  pub send_initial_player_sync-WritesOnly :
      (ref : ℕ) (existing : List ℕ) → WritesOnly (send_initial_player_sync delivers ref existing)
  unfolding send_initial_player_sync
  send_initial_player_sync-WritesOnly ref existing =
      let w = write_packet delivers ref in
      let announce = write_packet_to_clients delivers existing player_list in
      WritesOnly->> (announce >> w player_list >> w set_actor_data) (w set_actor_motion)
        (WritesOnly->> (announce >> w player_list) (w set_actor_data)
          (WritesOnly->> announce (w player_list)
            (write_packet_to_clients-WritesOnly existing player_list)
            (write_packet-WritesOnly ref player_list))
          (write_packet-WritesOnly ref set_actor_data))
        (write_packet-WritesOnly ref set_actor_motion)
