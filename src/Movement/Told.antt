-- ===== src/Movement/Told.antt =====
-- What the other players are told of a movement (internal/server/mcpe_player_sync.go).
use mathlib.Core.List.{append_assoc, append-nil}
use open_ai_mc_be_server.Prelude.{
  ℕ, ◌≡◌, sym, ap, ◌∙◌, Bool, true, false, not, List, [], ◌∷◌, ◌++◌, map,
}
use open_ai_mc_be_server.Session.State.{done, spawned_players_except}
use open_ai_mc_be_server.Inventory.Item.{Protocol}
use open_ai_mc_be_server.Inventory.Client.{Sent}
use open_ai_mc_be_server.Movement.Metadata.{Keys, FlagNumbers, InputNumbers}
use open_ai_mc_be_server.Movement.Body.{
  same_vec, mode_normal, Float32, Stage, Update, replace, put_body, set_actor_data_packet,
  move_player_packet, set_actor_motion_packet,
}
use open_ai_mc_be_server.Movement.Handlers.{
  PlayerAuthInput, write_update, when, write_updates, broadcast_to_spawned_peers, move_by_input,
  moved_by_input, same_pose,
}

abbrev pub to_each : {F : Type 0} → List ℕ → Update F → List (ℕ × Update F)
to_each refs u = map (λ ref. (ref, u)) refs

abbrev pub only : {A : Type 0} → Bool → List A → List A
only true l = l
only false l = []

module _ {F D : Type 0} (delivers : ℕ → Update F → Bool)
    (all : (ref : ℕ) (u : Update F) → delivers ref u ≡ true) where
  writes-all :
      (refs : List ℕ) (u : Update F) (s : Stage F D)
      → write_updates delivers refs u s ≡ (done, record s { updates = s.updates ++ to_each refs u })
  unfolding write_updates write_update
  writes-all [] u s =
      ap (λ (l : List (ℕ × Update F)). (done, record s { updates = l }))
        (sym (append-nil s.updates))
  writes-all (ref ∷ refs) u s = rw (all ref u) (
      writes-all refs u (record s { updates = s.updates ++ (ref, u) ∷ [] })
      ∙ ap (λ (l : List (ℕ × Update F)). (done, record s { updates = l }))
          (append_assoc s.updates ((ref, u) ∷ []) (to_each refs u)))

  -- A packet for the spawned peers, if there is one.
  told :
      (b : Bool) (ref : ℕ) (packet : Stage F D → Update F) (s : Stage F D)
      → when delivers b (λ t. broadcast_to_spawned_peers delivers ref (packet t) t) s ≡ (
        done,
        record s {
          updates = s.updates ++ only b (to_each (spawned_players_except s.server ref) (packet s));
        },
      )
  unfolding broadcast_to_spawned_peers
  told true ref packet s = writes-all (spawned_players_except s.server ref) (packet s) s
  told false ref packet s =
      ap (λ (l : List (ℕ × Update F)). (done, record s { updates = l }))
        (sym (append-nil s.updates))

  -- A packet that is always sent.
  told_always :
      (ref : ℕ) (packet : Stage F D → Update F) (s : Stage F D)
      → broadcast_to_spawned_peers delivers ref (packet s) s ≡ (
        done,
        record s {
          updates = s.updates ++ to_each (spawned_players_except s.server ref) (packet s);
        },
      )
  unfolding broadcast_to_spawned_peers
  told_always ref packet s = writes-all (spawned_players_except s.server ref) (packet s) s

  three-updates :
      (a b c : List (ℕ × Update F)) (s : Stage F D)
      → record s { updates = ((s.updates ++ a) ++ b) ++ c }
        ≡ record s { updates = s.updates ++ (a ++ (b ++ c)) }
  three-updates a b c s =
      ap (λ (l : List (ℕ × Update F)). record s { updates = l })
        (append_assoc (s.updates ++ a) b c ∙ append_assoc s.updates a (b ++ c))

  module _ ⦃q : Protocol D⦄ (float : Float32 F) (bag_delivers : Sent D → Bool) (keys : Keys)
      (flag : FlagNumbers) (in_ : InputNumbers) where
    -- What an input tells the spawned peers: of the flags if they changed, of the pose if it did,
    -- and of the velocity if it did.
    abbrev pub news_of : ℕ → PlayerAuthInput F → Stage F D → List (ℕ × Update F)
    news_of ref pk s =
        let old = s.bodies ref in
        let (new, changed) = moved_by_input delivers float bag_delivers keys flag in_ pk old in
        let peers = spawned_players_except s.server ref in
        let after = put_body ref new s in
        only changed (to_each peers (set_actor_data_packet after ref pk.tick))
        ++ (only (not (same_pose delivers float bag_delivers old new))
              (to_each peers (move_player_packet after ref mode_normal pk.tick))
            ++ only (not (same_vec float old.velocity new.velocity))
                (to_each peers (set_actor_motion_packet after ref pk.tick)))

    pub move_by_input-told :
        (ref : ℕ) (pk : PlayerAuthInput F) (s : Stage F D)
        → move_by_input delivers float bag_delivers keys flag in_ ref pk s ≡ (
          done,
          record s {
            bodies =
                replace ref
                  (moved_by_input delivers float bag_delivers keys flag in_ pk (s.bodies ref)).0
                  s.bodies;
            updates = s.updates ++ news_of ref pk s;
          },
        )
    unfolding move_by_input
    move_by_input-told ref pk s =
        let (new, changed) =
          moved_by_input delivers float bag_delivers keys flag in_ pk (s.bodies ref) in
        let first =
          told changed ref (λ t. set_actor_data_packet t ref pk.tick) (put_body ref new s) in
        let second =
          told (not (same_pose delivers float bag_delivers (s.bodies ref) new)) ref
            (λ t. move_player_packet t ref mode_normal pk.tick) in
        let third =
          told (not (same_vec float (s.bodies ref).velocity new.velocity)) ref
            (λ t. set_actor_motion_packet t ref pk.tick) in
        rw first (
          rw (second _) (
            rw (third _)
              (ap (λ (t : Stage F D). (done, t)) (three-updates _ _ _ (put_body ref new s)))))
