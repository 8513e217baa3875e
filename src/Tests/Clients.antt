-- ===== src/Tests/Clients.antt =====
-- A server with two players, of which one leaves, and a command line
-- (internal/server/mcpe_player_sync.go, internal/command/command.go).
use open_ai_mc_be_server.Prelude.{
  ℕ, zero, suc, inl, inr, ◌⊎◌, ◌≡◌, Bool, true, false, ◌==◌, List, [], ◌∷◌, some, none, refl, arith,
}
use open_ai_mc_be_server.Prelude.Dict.{lookup, erase}
use open_ai_mc_be_server.Session.State.{
  spawned, disconnected, Client, new_client, Message, Server, LoginData,
}
use open_ai_mc_be_server.Session.Players.{remove_player}
use open_ai_mc_be_server.Session.Packets.{set_local_player_as_initialised}
use open_ai_mc_be_server.Session.Handlers.{handle_packet}
use open_ai_mc_be_server.Session.Table.{IsTable}
use open_ai_mc_be_server.Session.Leaving.{remove_player_lem}
use open_ai_mc_be_server.Session.Ghosts.{restarted, restarted-ghost}
use open_ai_mc_be_server.Session.Gaps.{spawned_without_login}
use open_ai_mc_be_server.Command.Args.{Text, split_args, quote_all, split_args-quote_all}

abbrev alex : LoginData
alex = record { identity = some 77; xbox_live_authenticated = true; has_public_key = true }

abbrev playing : ℕ → Client
playing id = record new_client {
  state = spawned;
  runtime_id = id;
  login = some alex;
  uuid = some 77;
}

-- Client 0 and client 1 play, all others are new.
abbrev clients_of : ℕ → Client
clients_of zero = playing 1
clients_of (suc zero) = playing 2
clients_of (suc (suc ref)) = new_client

abbrev pub busy : Server
busy = record {
  online_mode = true;
  has_packs = false;
  view_distance = 8;
  next_id = 2;
  players = (1, 0) ∷ (2, 1) ∷ [];
  clients = clients_of;
  sent = [];
}

-- Only client 0 can be written to.
abbrev pub one_delivers : ℕ → Message → Bool
one_delivers ref m = ref == 0

listed_players :
    (id ref : ℕ)
    → lookup id busy.players ≡ some ref
    → ((id ≡ 1) × (ref ≡ 0)) ⊎ ((id ≡ 2) × (ref ≡ 1))
unfolding lookup
listed_players id ref e = ground arith

pub busy-IsTable : IsTable busy
busy-IsTable = record {
  listed = λ id ref e. elim (listed_players id ref e) [
    | inl (one, who) ↦ rw (one, who) (omega arith, omega arith, λ n. cc)
    | inr (two, who) ↦ rw (two, who) (omega arith, omega arith, λ n. cc)
  ];
}

listed_under_1 : lookup 1 busy.players ≡ some 0
unfolding lookup
listed_under_1 = refl

remove_player_lem_example :
    let after = (remove_player one_delivers 0 busy).1 in
    (after.players ≡ erase 1 busy.players) × ((after.clients 0).state ≡ disconnected)
remove_player_lem_example = remove_player_lem one_delivers 0 busy (omega arith) listed_under_1

-- Client 0 sends the handshake and the answer on resource packs again, and leaves.
restarted-ghost_example :
    let left = (remove_player one_delivers 0 (restarted one_delivers 800 0 busy)).1 in
    (lookup 1 left.players ≡ some 0) × ((left.clients 0).state ≡ disconnected)
restarted-ghost_example =
    restarted-ghost one_delivers 800 0 77 busy refl refl refl (omega arith) (omega arith)
      listed_under_1

spawned_without_login_example :
    let after =
      (handle_packet one_delivers 800 5 (set_local_player_as_initialised 0) busy).1.clients 5 in
    (after.state ≡ spawned) × (after.login ≡ none)
spawned_without_login_example = spawned_without_login one_delivers 800 5 busy refl refl refl

-- `say "hi"`, an empty argument, and `a b\`.
abbrev arguments : List Text
arguments = (115 ∷ 97 ∷ 121 ∷ []) ∷ (34 ∷ 104 ∷ 105 ∷ 34 ∷ []) ∷ [] ∷ (97 ∷ 32 ∷ 98 ∷ 92 ∷ []) ∷ []

split_args-quote_all_example : split_args (quote_all arguments) ≡ some arguments
split_args-quote_all_example = split_args-quote_all arguments
