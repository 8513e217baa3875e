-- ===== src/Movement/Finite.antt =====
-- No packet gives a player a position or an angle that is not a finite number (internal/server/mcpe_player_sync.go).
use open_ai_mc_be_server.Movement.Still.{
  when-StandsStill, write-StandsStill, StandsStill, broadcast-StandsStill, three-bodies,
}
use open_ai_mc_be_server.Session.Packets.{is_disconnected}
use open_ai_mc_be_server.Movement.Metadata.{input_flag, InputNumbers, FlagNumbers, Keys}
use open_ai_mc_be_server.Prelude.{
  ℕ, ◌≡◌, refl, sym, subst, Bool, true, not, ◌&&◌, Option, none, some, ◌==◌, Bool-cases, inl, inr,
  arith,
}
use open_ai_mc_be_server.World.Flat.{Vec3}
use open_ai_mc_be_server.Session.State.{Outcome, done, failed, Message, is_spawned}
use open_ai_mc_be_server.Inventory.Item.{Protocol}
use open_ai_mc_be_server.Inventory.Client.{Sent}
use open_ai_mc_be_server.Movement.Body.{
  MoveMode, same_vec, put_body, set_actor_data_packet, mode_normal, move_player_packet,
  set_actor_motion_packet, Body, Float32, Stage, Update, finite_vec, normalise_degrees, replace,
}
use open_ai_mc_be_server.Movement.Handlers.{
  placed_at, mouse_over_entity, open_inventory, leave_vehicle, other_action, auth_input, move,
  interaction, move, auth_input, route_body_packet, interact_by, player_exists, Interact,
  BodyPacket, finite_if_given, handle_leave_vehicle, InteractAction, handle_interact,
  handle_body_packet, handle_mouse_over_entity, moved_to, process_requests, MovePlayer,
  handle_player_auth_input, handle_move_player, announce_motion, announce_move, same_pose,
  announce_data, PlayerAuthInput, move_by_input, finite_pose, moved_by_input, write_update, when,
  ◌next◌, StageHandler,
}

-- Finite numbers stay finite under `math.Mod(v, 360)`, and a negative one under the addition of 360.
pub record FiniteLaws {F : Type 0} (float : Float32 F) : Type 0 where
  pub zero_finite : float.finite float.zero_float ≡ true
  pub mod_finite : (v : F) → float.finite v ≡ true → float.finite (float.mod_360 v) ≡ true
  pub add_finite :
      (v : F)
      → float.finite v ≡ true
      → float.is_negative v ≡ true
      → float.finite (float.add_360 v) ≡ true

module _ {F : Type 0} (float : Float32 F) where
  pub record IsFinite (b : Body F) : Type 0 where
    pub place : finite_vec float b.position ≡ true
    pub pitch : float.finite b.pitch ≡ true
    pub yaw : float.finite b.yaw ≡ true
    pub head_yaw : float.finite b.head_yaw ≡ true

  abbrev pub AllFinite : {D : Type 0} → Stage F D → Type 0
  AllFinite s = (k : ℕ) → IsFinite (s.bodies k)

  same_bodies-AllFinite :
      {D : Type 0} (s t : Stage F D) → t.bodies ≡ s.bodies → AllFinite s → AllFinite t
  same_bodies-AllFinite s t e h k = subst (λ (f : ℕ → Body F). IsFinite (f k)) (sym e) (h k)

  replace-IsFinite :
      (ref : ℕ) (b : Body F) (f : ℕ → Body F) (k : ℕ)
      → IsFinite b
      → IsFinite (f k)
      → IsFinite (replace ref b f k)
  replace-IsFinite ref b f k hb hk = elim (Bool-cases (k == ref)) [
    | inl e ↦ rw e hb
    | inr e ↦ rw e hk
  ]

  module _ (laws : FiniteLaws float) where
    normalise-finite :
        (v : F) → float.finite v ≡ true → float.finite (normalise_degrees float v) ≡ true
    unfolding normalise_degrees
    normalise-finite v h = elim (Bool-cases (float.is_negative (float.mod_360 v))) [
      | inl n ↦ rw n (laws.add_finite (float.mod_360 v) (laws.mod_finite v h) n)
      | inr n ↦ rw n (laws.mod_finite v h)
    ]

    module _ {D : Type 0} ⦃q : Protocol D⦄ (delivers : ℕ → Update F → Bool)
        (bag_delivers : Sent D → Bool) (session_delivers : ℕ → Message → Bool) (current : ℕ)
        (keys : Keys) (flag : FlagNumbers) (in_ : InputNumbers) where
      pose-parts :
          (position : Vec3 F) (a b c : F)
          → finite_pose delivers float bag_delivers position a b c ≡ true
          → (finite_vec float position ≡ true)
            × (float.finite a ≡ true)
            × (float.finite b ≡ true)
            × (float.finite c ≡ true)
      pose-parts position a b c h = (ground arith, ground arith, ground arith, ground arith)

      moved_by_input-IsFinite :
          (pk : PlayerAuthInput F) (b : Body F)
          → finite_pose delivers float bag_delivers pk.position pk.pitch pk.yaw pk.head_yaw ≡ true
          → IsFinite (moved_by_input delivers float bag_delivers keys flag in_ pk b).0
      unfolding moved_by_input
      moved_by_input-IsFinite pk b h =
          let (p, x, y, z) = pose-parts pk.position pk.pitch pk.yaw pk.head_yaw h in
          record {
            place = p;
            pitch = normalise-finite pk.pitch x;
            yaw = normalise-finite pk.yaw y;
            head_yaw = normalise-finite pk.head_yaw z;
          }

      move_by_input-bodies :
          (ref : ℕ) (pk : PlayerAuthInput F) (s : Stage F D)
          → (move_by_input delivers float bag_delivers keys flag in_ ref pk s).1.bodies
            ≡ replace ref
                (moved_by_input delivers float bag_delivers keys flag in_ pk (s.bodies ref)).0
                s.bodies
      unfolding move_by_input
      move_by_input-bodies ref pk s =
          let (new, changed) =
            moved_by_input delivers float bag_delivers keys flag in_ pk (s.bodies ref) in
          three-bodies delivers (put_body ref new s)
            (when delivers changed (announce_data delivers ref pk.tick))
            (when delivers (not (same_pose delivers float bag_delivers (s.bodies ref) new))
              (announce_move delivers ref mode_normal pk.tick))
            (when delivers (not (same_vec float (s.bodies ref).velocity new.velocity))
              (announce_motion delivers ref pk.tick))
            (when-StandsStill delivers changed (announce_data delivers ref pk.tick)
              (broadcast-StandsStill delivers ref (λ s'. set_actor_data_packet s' ref pk.tick)))
            (when-StandsStill delivers _ (announce_move delivers ref mode_normal pk.tick) (
              broadcast-StandsStill delivers ref
                (λ s'. move_player_packet s' ref mode_normal pk.tick)))
            (when-StandsStill delivers _ (announce_motion delivers ref pk.tick)
              (broadcast-StandsStill delivers ref (λ s'. set_actor_motion_packet s' ref pk.tick)))

      next-AllFinite :
          (r : Outcome × Stage F D) (m : StageHandler F D)
          → AllFinite r.1
          → ((s : Stage F D) → AllFinite s → AllFinite (m s).1)
          → AllFinite (r next m).1
      next-AllFinite (done, s) m h k = k s h
      next-AllFinite (failed, s) m h k = h

      still-AllFinite :
          (m : StageHandler F D) (s : Stage F D)
          → StandsStill delivers m
          → AllFinite s
          → AllFinite (m s).1
      still-AllFinite m s still h = same_bodies-AllFinite s (m s).1 (still s) h

      move_by_input-AllFinite :
          (ref : ℕ) (pk : PlayerAuthInput F) (s : Stage F D)
          → finite_pose delivers float bag_delivers pk.position pk.pitch pk.yaw pk.head_yaw ≡ true
          → AllFinite s
          → AllFinite (move_by_input delivers float bag_delivers keys flag in_ ref pk s).1
      move_by_input-AllFinite ref pk s p h k =
          subst (λ (f : ℕ → Body F). IsFinite (f k)) (sym (move_by_input-bodies ref pk s))
            (replace-IsFinite ref _ s.bodies k (moved_by_input-IsFinite pk (s.bodies ref) p) (h k))

      auth-AllFinite :
          (ref : ℕ) (pk : PlayerAuthInput F) (s : Stage F D)
          → AllFinite s
          → AllFinite
              (handle_player_auth_input delivers float bag_delivers keys flag in_ ref pk s).1
      unfolding handle_player_auth_input
      auth-AllFinite ref pk s h = elim (Bool-cases ((s.server.clients ref).runtime_id == 0)) [
        | inl e ↦ rw e h
        | inr e ↦
            rw e
              (elim (Bool-cases
                (finite_pose delivers float bag_delivers pk.position pk.pitch pk.yaw pk.head_yaw)) [
                  | inr f ↦ rw f h
                  | inl f ↦ rw f (elim (Bool-cases (is_spawned (s.server.clients ref).state)) [
                    | inr g ↦ rw g (
                        still-AllFinite (write_update delivers ref _) s
                          (write-StandsStill delivers ref _) h)
                    | inl g ↦ rw g (
                        next-AllFinite
                          (when delivers (input_flag pk.input_data in_.perform_item_stack_request)
                            (process_requests delivers float bag_delivers ref pk.item_stack_request)
                            s)
                          (move_by_input delivers float bag_delivers keys flag in_ ref pk)
                          (still-AllFinite
                            (when delivers (input_flag pk.input_data in_.perform_item_stack_request)
                              (process_requests delivers float bag_delivers ref
                                pk.item_stack_request))
                            s (when-StandsStill delivers _ _ (λ t. refl)) h)
                          (λ t. move_by_input-AllFinite ref pk t f))
                  ])
                ])
      ]

      announced-AllFinite :
          (ref : ℕ) (mode : MoveMode) (tick : ℕ) (b : Body F) (s : Stage F D)
          → IsFinite b
          → AllFinite s
          → AllFinite ((done, put_body ref b s) next announce_move delivers ref mode tick).1
      announced-AllFinite ref mode tick b s hb h =
          still-AllFinite (announce_move delivers ref mode tick) (put_body ref b s)
            (broadcast-StandsStill delivers ref (λ s'. move_player_packet s' ref mode tick))
            (λ k. replace-IsFinite ref b s.bodies k hb (h k))

      move-AllFinite :
          (ref : ℕ) (pk : MovePlayer F) (s : Stage F D)
          → AllFinite s
          → AllFinite (handle_move_player delivers float bag_delivers ref pk s).1
      unfolding handle_move_player
      move-AllFinite ref pk s h = elim (Bool-cases ((s.server.clients ref).runtime_id == 0)) [
        | inl e ↦ rw e h
        | inr e ↦
            rw e
              (elim (Bool-cases (
                not (pk.entity_runtime_id == 0)
                && not (pk.entity_runtime_id == (s.server.clients ref).runtime_id))) [
                  | inl m ↦ rw m h
                  | inr m ↦
                      rw m
                        (elim (Bool-cases (
                          finite_pose delivers float bag_delivers pk.position pk.pitch pk.yaw
                            pk.head_yaw)) [
                              | inr f ↦ rw f h
                              | inl f ↦
                                  rw f
                                    (elim (Bool-cases (is_spawned (s.server.clients ref).state)) [
                                      | inr g ↦ rw g (
                                          still-AllFinite (write_update delivers ref _) s
                                            (write-StandsStill delivers ref _) h)
                                      | inl g ↦
                                          let (p, x, y, z) =
                                            pose-parts pk.position pk.pitch pk.yaw pk.head_yaw f in
                                          rw g (
                                            announced-AllFinite ref pk.mode pk.tick
                                              (moved_to delivers float bag_delivers pk
                                                (s.bodies ref))
                                              s
                                              (record {
                                                place = p;
                                                pitch = normalise-finite pk.pitch x;
                                                yaw = normalise-finite pk.yaw y;
                                                head_yaw = normalise-finite pk.head_yaw z;
                                              })
                                              h)
                                    ])
                            ])
                ])
      ]

      placed_at-IsFinite :
          (given : Option (Vec3 F)) (b : Body F)
          → finite_if_given delivers float bag_delivers given ≡ true
          → IsFinite b
          → IsFinite (placed_at delivers float bag_delivers given b)
      placed_at-IsFinite none b h f = f
      placed_at-IsFinite (some position) b h f = record {
        place = h;
        pitch = f.pitch;
        yaw = f.yaw;
        head_yaw = f.head_yaw;
      }

      leave-AllFinite :
          (ref : ℕ) (pk : Interact F) (s : Stage F D)
          → AllFinite s
          → AllFinite (handle_leave_vehicle delivers float bag_delivers ref pk s).1
      unfolding handle_leave_vehicle
      leave-AllFinite ref pk s h =
          elim (Bool-cases (finite_if_given delivers float bag_delivers pk.position)) [
            | inr e ↦ rw e h
            | inl e ↦ rw e (
                announced-AllFinite ref mode_normal 0
                  (placed_at delivers float bag_delivers pk.position (s.bodies ref)) s
                  (placed_at-IsFinite pk.position (s.bodies ref) e (h ref)) h)
          ]

      look-AllFinite :
          (ref : ℕ) (pk : Interact F) (s : Stage F D)
          → AllFinite s
          → AllFinite (handle_mouse_over_entity delivers float bag_delivers ref pk s).1
      unfolding handle_mouse_over_entity
      look-AllFinite ref pk s h =
          elim (Bool-cases (
            not (pk.target == 0)
            && not (player_exists delivers float bag_delivers pk.target s.server))) [
              | inl e ↦ rw e h
              | inr e ↦
                  rw e
                    (elim (Bool-cases (finite_if_given delivers float bag_delivers pk.position)) [
                      | inr f ↦ rw f h
                      | inl f ↦ rw f (λ k.
                          replace-IsFinite ref _ s.bodies k
                            (record {
                              place = (h ref).place;
                              pitch = (h ref).pitch;
                              yaw = (h ref).yaw;
                              head_yaw = (h ref).head_yaw;
                            })
                            (h k))
                    ])
            ]

      interact_by-AllFinite :
          (action : InteractAction) (ref : ℕ) (pk : Interact F) (s : Stage F D)
          → AllFinite s
          → AllFinite
              (interact_by delivers float bag_delivers session_delivers current action ref pk s).1
      interact_by-AllFinite mouse_over_entity ref pk s h = look-AllFinite ref pk s h
      interact_by-AllFinite open_inventory ref pk s h = h
      interact_by-AllFinite leave_vehicle ref pk s h = leave-AllFinite ref pk s h
      interact_by-AllFinite other_action ref pk s h = h

      route-AllFinite :
          (ref : ℕ) (pk : BodyPacket F) (s : Stage F D)
          → AllFinite s
          → AllFinite
              (route_body_packet delivers float bag_delivers session_delivers current keys flag in_
                ref pk s).1
      unfolding handle_interact
      route-AllFinite ref (auth_input pk) s h = auth-AllFinite ref pk s h
      route-AllFinite ref (move pk) s h = move-AllFinite ref pk s h
      route-AllFinite ref (interaction pk) s h =
          elim (Bool-cases ((s.server.clients ref).runtime_id == 0)) [
            | inl e ↦ rw e h
            | inr e ↦ rw e (interact_by-AllFinite pk.action ref pk s h)
          ]

      -- If the positions and angles of all players are finite, they are so after any
      -- PlayerAuthInput, MovePlayer or Interact packet of any client, whatever its
      -- numbers, its client's state and the failing writes, given that finite numbers stay
      -- finite under math.Mod and under the addition of 360 to a negative one.
      pub handle_body_packet-AllFinite :
          (ref : ℕ) (pk : BodyPacket F) (s : Stage F D)
          → AllFinite s
          → AllFinite
              (handle_body_packet delivers float bag_delivers session_delivers current keys flag in_
                ref pk s).1
      unfolding handle_body_packet
      handle_body_packet-AllFinite ref pk s h =
          elim (Bool-cases (is_disconnected (s.server.clients ref).state)) [
            | inl e ↦ rw e h
            | inr e ↦ rw e (route-AllFinite ref pk s h)
          ]
