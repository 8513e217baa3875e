-- ===== src/Session/Leaving.antt =====
-- What the end of a connection leaves behind (internal/server/mcpe_player_sync.go, `removePlayer`).
use open_ai_mc_be_server.Prelude.{
  ==_iff, ◌∙◌, ℕ, ◌<◌, ◌≡◌, Bool, true, false, List, some, refl, arith, inl, inr, Bool-cases, ◌==◌,
  sym,
}
use open_ai_mc_be_server.Prelude.Dict.{lookup, erase, lookup-erase}
use open_ai_mc_be_server.Session.State.{
  remove_actor, player_list_remove, player_left, is_spawned, disconnected, Message, Server, done,
  assign, ignore, spawned_players,
}
use open_ai_mc_be_server.Session.Players.{
  write_packet_to_clients, table_without, say_goodbye, forget, remove_player, holds, or_return,
}
use open_ai_mc_be_server.Session.Writes.{
  Same-refl, Same-trans, write_packet_to_clients-WritesOnly, Same,
}
use open_ai_mc_be_server.Session.Table.{Same-IsTable, IsTable, assign-Keeps}

module _ (delivers : ℕ → Message → Bool) where
  farewell-Same :
      (b : Bool) (others : List ℕ) (s : Server)
      → Same s (or_return b (ignore (write_packet_to_clients delivers others player_left)) s).1
  farewell-Same true others s = write_packet_to_clients-WritesOnly delivers others player_left s
  farewell-Same false others s = Same-refl s

  goodbye-Same :
      (ref : ℕ) (others : List ℕ) (s : Server) → Same s (say_goodbye delivers ref others s).1
  goodbye-Same ref others s =
      let to_all = write_packet_to_clients delivers others in
      let removed = (to_all player_list_remove s).1 in
      let gone = (to_all remove_actor removed).1 in
      Same-trans
        (Same-trans (write_packet_to_clients-WritesOnly delivers others player_list_remove s)
          (write_packet_to_clients-WritesOnly delivers others remove_actor removed))
        (farewell-Same (is_spawned (s.clients ref).state) others gone)

  goodbye-done :
      (ref : ℕ) (others : List ℕ) (s : Server) → (say_goodbye delivers ref others s).0 ≡ done
  goodbye-done ref others s = elim (Bool-cases (is_spawned (s.clients ref).state)) [
    | inl e ↦ rw e refl
    | inr e ↦ rw e refl
  ]

  without-IsTable : (id : ℕ) (s : Server) → IsTable s → IsTable (table_without delivers id s)
  without-IsTable id s t = record {
    listed = λ other ref e.
        let q = sym (lookup-erase id other s.players) ∙ e in
        elim (Bool-cases (id == other)) [
          | inl same ↦ cc
          | inr diff ↦ t.listed other ref (sym (rw diff) ∙ q)
        ];
  }

  -- The server when all others were told.
  abbrev told : ℕ → ℕ → Server → Server
  told ref id s =
      let s' = table_without delivers id s in (say_goodbye delivers ref (spawned_players s') s').1

  forget_lem :
      (ref id : ℕ) (s : Server)
      → forget delivers ref id s
        ≡ assign ref (λ c. record c { state = disconnected }) (told ref id s)
  forget_lem ref id s =
      let s' = table_without delivers id s in rw (goodbye-done ref (spawned_players s') s') refl

  forget-IsTable : (ref id : ℕ) (s : Server) → IsTable s → IsTable (forget delivers ref id s).1
  forget-IsTable ref id s t = rw (forget_lem ref id s) (
      (assign-Keeps ref _ (λ c u. u)).keep (told ref id s)
        (Same-IsTable (goodbye-Same ref _ (table_without delivers id s)) (without-IsTable id s t)))

  left_lem :
      (ref id : ℕ) (s : Server)
      → let s' = (assign ref (λ c. record c { state = disconnected }) (told ref id s)).1 in
        (s'.players ≡ erase id s.players) × ((s'.clients ref).state ≡ disconnected)
  unfolding assign
  left_lem ref id s = (
    (goodbye-Same ref _ (table_without delivers id s)).same_players,
    rw ((==_iff ref ref).1 refl) refl,
  )

  -- `removePlayer` keeps the table of players sound, whichever of the writes to the others
  -- fail.
  pub remove_player-IsTable :
      (ref : ℕ) (s : Server) → IsTable s → IsTable (remove_player delivers ref s).1
  unfolding remove_player
  remove_player-IsTable ref s t =
      let id = (s.clients ref).runtime_id in
      elim (Bool-cases (id == 0)) [
        | inl e ↦ rw e t
        | inr e ↦ elim (Bool-cases (holds (lookup id s.players) ref)) [
          | inl h ↦ rw (e, h) (forget-IsTable ref id s t)
          | inr h ↦ rw (e, h) t
        ]
      ]

  -- `removePlayer` on a client with a positive runtime id under which the table lists it
  -- erases that id from the table and nothing else, and the client ends disconnected,
  -- whichever of the writes to the others fail.
  pub remove_player_lem :
      (ref : ℕ) (s : Server)
      → 0 < (s.clients ref).runtime_id
      → lookup (s.clients ref).runtime_id s.players ≡ some ref
      → let s' = (remove_player delivers ref s).1 in
        (s'.players ≡ erase (s.clients ref).runtime_id s.players)
        × ((s'.clients ref).state ≡ disconnected)
  unfolding remove_player
  remove_player_lem ref s pos_id e =
      let id = (s.clients ref).runtime_id in
      let there : (id == 0) ≡ false = ground arith in
      let own : holds (lookup id s.players) ref ≡ true = rw e ((==_iff ref ref).1 refl) in
      rw (there, own, forget_lem ref id s) (left_lem ref id s)
