-- ===== src/Movement/Seen.antt =====
-- Where the other players see a player (internal/server/mcpe_player_sync.go).
use open_ai_mc_be_server.Movement.View.{seen, listed, seen-news, or_else, pose_of, pose_in, Pose}
use open_ai_mc_be_server.Prelude.{
  ==_iff, ℕ, ◌≡◌, refl, sym, ap, ◌∙◌, subst, Bool, true, false, not, ◌&&◌, List, Option, none, some,
  ◌==◌, if◌then◌else◌, Bool-cases, inl, inr,
}
use open_ai_mc_be_server.Session.State.{
  Server, Outcome, done, failed, is_spawned, spawned_players_except,
}
use open_ai_mc_be_server.Inventory.Item.{Protocol}
use open_ai_mc_be_server.Inventory.Client.{Sent}
use open_ai_mc_be_server.Movement.Metadata.{Keys, FlagNumbers, InputNumbers, input_flag}
use open_ai_mc_be_server.Movement.Body.{
  move_player_packet, mode_normal, put_body, MoveMode, same_vec, Body, Float32, Stage, Update,
  normalise_degrees,
}
use open_ai_mc_be_server.Movement.Handlers.{
  ◌next◌, move_by_input, StageHandler, PlayerAuthInput, handle_player_auth_input, moved_by_input,
  finite_pose, process_requests, when,
}
use open_ai_mc_be_server.Movement.Told.{move_by_input-told}

or_else_if :
    {A : Type 0} (b : Bool) (a : A) (o : Option A)
    → or_else (if b then some a else none) o ≡ (if b then some a else o)
or_else_if true a o = refl
or_else_if false a o = refl

module _ {F D : Type 0} (delivers : ℕ → Update F → Bool)
    (all : (ref : ℕ) (u : Update F) → delivers ref u ≡ true) ⦃q : Protocol D⦄ (float : Float32 F)
    (bag_delivers : Sent D → Bool) (keys : Keys) (flag : FlagNumbers) (in_ : InputNumbers) where
  -- The pose that an input asks for.
  abbrev pub asked : PlayerAuthInput F → Pose F
  asked pk = record {
    position = pk.position;
    pitch = normalise_degrees float pk.pitch;
    yaw = normalise_degrees float pk.yaw;
    head_yaw = normalise_degrees float pk.head_yaw;
  }

  abbrev pub requests_of : ℕ → PlayerAuthInput F → StageHandler F D
  requests_of ref pk =
      when delivers (input_flag pk.input_data in_.perform_item_stack_request)
        (process_requests delivers float bag_delivers ref pk.item_stack_request)

  abbrev pub asked_same : Body F → PlayerAuthInput F → Bool
  asked_same old pk =
      same_vec float old.position pk.position
      && float.same old.pitch (normalise_degrees float pk.pitch)
      && float.same old.yaw (normalise_degrees float pk.yaw)
      && float.same old.head_yaw (normalise_degrees float pk.head_yaw)

  -- The client stands as asked, and the spawned peers see it there if it has moved.
  abbrev Shows :
      ℕ → PlayerAuthInput F → Server → Body F → List (ℕ × Update F) → Outcome × Stage F D → Type 0
  Shows ref pk server old before t =
      (t.0 ≡ done)
      × (pose_of (t.1.bodies ref) ≡ asked pk)
      × ((p : ℕ)
          → seen p (server.clients ref).runtime_id t.1.updates ≡ (
              if not (asked_same old pk) && listed p (spawned_players_except server ref)
              then some (asked pk)
              else seen p (server.clients ref).runtime_id before))

  itself : (n : ℕ) → (n == n) ≡ true
  itself n = (==_iff n n).1 refl

  body-put_body : (ref : ℕ) (b : Body F) (s : Stage F D) → (put_body ref b s).bodies ref ≡ b
  body-put_body ref b s = rw (itself ref) refl

  pose_in-packet :
      (ref : ℕ) (b : Body F) (s : Stage F D) (mode : MoveMode) (tick : ℕ)
      → pose_in
          (s.server.clients ref).runtime_id
          (move_player_packet (put_body ref b s) ref mode tick)
        ≡ some (pose_of b)
  pose_in-packet ref b s mode tick =
      rw (itself (s.server.clients ref).runtime_id)
        (ap (λ (c : Body F). some (pose_of c)) (body-put_body ref b s))

  move_by_input-seen :
      (ref : ℕ) (pk : PlayerAuthInput F) (s : Stage F D)
      → Shows ref pk s.server
          (s.bodies ref)
          s.updates
          (move_by_input delivers float bag_delivers keys flag in_ ref pk s)
  unfolding moved_by_input
  move_by_input-seen ref pk s =
      rw (move_by_input-told delivers all float bag_delivers keys flag in_ ref pk s) (
        refl,
        ap (λ (b : Body F). pose_of b)
            (body-put_body ref
              (moved_by_input delivers float bag_delivers keys flag in_ pk (s.bodies ref)).0 s),
        λ p.
            let (new, changed) =
              moved_by_input delivers float bag_delivers keys flag in_ pk (s.bodies ref) in
            let b = not (asked_same (s.bodies ref) pk) in
            let peers = spawned_players_except s.server ref in
            let id = (s.server.clients ref).runtime_id in
            seen-news p id changed b (not (same_vec float (s.bodies ref).velocity pk.delta)) peers
              s.updates _ _ _ refl refl
            ∙ ap
                (λ (o : Option (Pose F)).
                  or_else (if b && listed p peers then o else none) (seen p id s.updates))
                (pose_in-packet ref new s mode_normal pk.tick)
            ∙ or_else_if (b && listed p peers) (asked pk) (seen p id s.updates),
      )

  -- The requests change no body, send no body's packet, and leave the server alone.
  requests-kept :
      (ref : ℕ) (pk : PlayerAuthInput F) (s : Stage F D)
      → ((requests_of ref pk s).1.server ≡ s.server)
        × ((requests_of ref pk s).1.bodies ≡ s.bodies)
        × ((requests_of ref pk s).1.updates ≡ s.updates)
  requests-kept ref pk s =
      elim (Bool-cases (input_flag pk.input_data in_.perform_item_stack_request)) [
        | inl e ↦ rw e (refl, refl, refl)
        | inr e ↦ rw e (refl, refl, refl)
      ]

  next-done : (r : Outcome × Stage F D) (m : StageHandler F D) → r.0 ≡ done → (r next m) ≡ m r.1
  next-done (done, s) m h = refl
  next-done (failed, s) m h = cc

  auth_input-moves :
      (ref : ℕ) (pk : PlayerAuthInput F) (s : Stage F D)
      → ((s.server.clients ref).runtime_id == 0) ≡ false
      → finite_pose delivers float bag_delivers pk.position pk.pitch pk.yaw pk.head_yaw ≡ true
      → is_spawned (s.server.clients ref).state ≡ true
      → (requests_of ref pk s).0 ≡ done
      → handle_player_auth_input delivers float bag_delivers keys flag in_ ref pk s
        ≡ move_by_input delivers float bag_delivers keys flag in_ ref pk (requests_of ref pk s).1
  unfolding handle_player_auth_input
  auth_input-moves ref pk s a b c d =
      rw (a, b, c)
        (next-done (requests_of ref pk s)
          (move_by_input delivers float bag_delivers keys flag in_ ref pk) d)

  -- If every write of a body's packet succeeds, a PlayerAuthInput with a finite pose from a
  -- spawned client with a runtime id, whose item stack requests, if any, do not fail,
  -- succeeds: the client's pose is the one asked for, with its angles normalised. The spawned
  -- peers were last told of that pose if it differs from the old one, and all other clients,
  -- and all of them if it does not, were last told of what they were told before.
  pub handle_player_auth_input-seen :
      (ref : ℕ) (pk : PlayerAuthInput F) (s : Stage F D)
      → ((s.server.clients ref).runtime_id == 0) ≡ false
      → finite_pose delivers float bag_delivers pk.position pk.pitch pk.yaw pk.head_yaw ≡ true
      → is_spawned (s.server.clients ref).state ≡ true
      → (requests_of ref pk s).0 ≡ done
      → let t = handle_player_auth_input delivers float bag_delivers keys flag in_ ref pk s in
        (t.0 ≡ done)
        × (pose_of (t.1.bodies ref) ≡ asked pk)
        × ((p : ℕ)
            → seen p (s.server.clients ref).runtime_id t.1.updates ≡ (
                if not (asked_same (s.bodies ref) pk)
                  && listed p (spawned_players_except s.server ref)
                then some (asked pk)
                else seen p (s.server.clients ref).runtime_id s.updates))
  handle_player_auth_input-seen ref pk s a b c d =
      let (e, f, g) = requests-kept ref pk s in
      let t =
        move_by_input delivers float bag_delivers keys flag in_ ref pk (requests_of ref pk s).1 in
      let moved = move_by_input-seen ref pk (requests_of ref pk s).1 in
      subst (λ (r : Outcome × Stage F D). Shows ref pk s.server (s.bodies ref) s.updates r)
        (sym (auth_input-moves ref pk s a b c d))
        (subst (λ (server : Server). Shows ref pk server (s.bodies ref) s.updates t) e
          (subst
            (λ (bodies : ℕ → Body F).
              Shows ref pk (requests_of ref pk s).1.server (bodies ref) s.updates t)
            f
            (subst
              (λ (l : List (ℕ × Update F)).
                Shows ref pk (requests_of ref pk s).1.server ((requests_of ref pk s).1.bodies ref) l
                  t)
              g moved)))
