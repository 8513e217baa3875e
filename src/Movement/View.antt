-- ===== src/Movement/View.antt =====
-- What a client was last told of a player's pose (internal/server/mcpe_player_sync.go).
use open_ai_mc_be_server.Prelude.{
  ℕ, ◌≡◌, refl, sym, ap, ◌∙◌, Bool, true, false, ◌&&◌, ◌||◌, List, [], ◌∷◌, ◌++◌, Option, none,
  some, ◌==◌, if◌then◌else◌,
}
use open_ai_mc_be_server.World.Flat.{Vec3}
use open_ai_mc_be_server.Movement.Body.{Body, Update, move_player, set_actor_data, set_actor_motion}
use open_ai_mc_be_server.Movement.Told.{to_each, only}

pub record Pose (F : Type 0) : Type 0 where
  pub position : Vec3 F
  pub pitch : F
  pub yaw : F
  pub head_yaw : F

abbrev pub pose_of : {F : Type 0} → Body F → Pose F
pose_of b = record { position = b.position; pitch = b.pitch; yaw = b.yaw; head_yaw = b.head_yaw }

abbrev pub or_else : {A : Type 0} → Option A → Option A → Option A
or_else none b = b
or_else (some a) b = some a

-- The pose of the player `id` that a packet tells of.
abbrev pub pose_in : {F : Type 0} → ℕ → Update F → Option (Pose F)
pose_in id (move_player i position pitch yaw head_yaw mode on_ground tick) =
    if i == id
    then some (record { position = position; pitch = pitch; yaw = yaw; head_yaw = head_yaw })
    else none
pose_in id (set_actor_data i metadata tick) = none
pose_in id (set_actor_motion i velocity tick) = none

-- The last pose of the player `id` that the client `p` was told of.
unfoldable pub seen : {F : Type 0} → ℕ → ℕ → List (ℕ × Update F) → Option (Pose F)
seen p id [] = none
seen p id ((ref, u) ∷ rest) = or_else (seen p id rest) (if ref == p then pose_in id u else none)

abbrev pub listed : ℕ → List ℕ → Bool
listed p [] = false
listed p (ref ∷ refs) = ref == p || listed p refs

pick :
    {A : Type 0} (a b : Bool) (o : Option A)
    → or_else (if b then o else none) (if a then o else none) ≡ (if a || b then o else none)
pick true true none = refl
pick true true (some x) = refl
pick true false none = refl
pick true false (some x) = refl
pick false true none = refl
pick false true (some x) = refl
pick false false o = refl

if_none : {A : Type 0} (b : Bool) → ◌≡◌ {A = Option A} (if b then none else none) none
if_none true = refl
if_none false = refl

module _ {F : Type 0} (p id : ℕ) where
  or_else_assoc : (a b c : Option (Pose F)) → or_else (or_else a b) c ≡ or_else a (or_else b c)
  or_else_assoc none b c = refl
  or_else_assoc (some a) b c = refl

  or_else-none : (a : Option (Pose F)) → or_else a none ≡ a
  or_else-none none = refl
  or_else-none (some a) = refl

  seen-append :
      (l m : List (ℕ × Update F)) → seen p id (l ++ m) ≡ or_else (seen p id m) (seen p id l)
  unfolding seen
  seen-append [] m = sym (or_else-none (seen p id m))
  seen-append ((ref, u) ∷ l) m =
      ap (λ (o : Option (Pose F)). or_else o (if ref == p then pose_in id u else none))
        (seen-append l m)
      ∙ or_else_assoc (seen p id m) (seen p id l) (if ref == p then pose_in id u else none)

  seen-to_each :
      (refs : List ℕ) (u : Update F)
      → seen p id (to_each refs u) ≡ (if listed p refs then pose_in id u else none)
  unfolding seen
  seen-to_each [] u = refl
  seen-to_each (ref ∷ refs) u =
      rw (seen-to_each refs u) (pick (ref == p) (listed p refs) (pose_in id u))

  seen-only_silent :
      (b : Bool) (refs : List ℕ) (u : Update F)
      → pose_in id u ≡ none
      → seen p id (only b (to_each refs u)) ≡ none
  unfolding seen
  seen-only_silent true refs u h = seen-to_each refs u ∙ rw h (if_none (listed p refs))
  seen-only_silent false refs u h = refl

  seen-only :
      (b : Bool) (refs : List ℕ) (u : Update F)
      → seen p id (only b (to_each refs u)) ≡ (if b && listed p refs then pose_in id u else none)
  unfolding seen
  seen-only true refs u = seen-to_each refs u
  seen-only false refs u = refl

  -- Of three broadcasts the second alone tells of the pose.
  pub seen-news :
      (a b c : Bool) (refs : List ℕ) (before : List (ℕ × Update F)) (u v w : Update F)
      → pose_in id u ≡ none
      → pose_in id w ≡ none
      → seen p id (
          before
          ++ (only a (to_each refs u) ++ (only b (to_each refs v) ++ only c (to_each refs w))))
        ≡ or_else (if b && listed p refs then pose_in id v else none) (seen p id before)
  seen-news a b c refs before u v w hu hw =
      seen-append before _
      ∙ ap (λ (o : Option (Pose F)). or_else o (seen p id before))
          (seen-append (only a (to_each refs u)) _
            ∙ ap
                (λ (o : Option (Pose F)).
                  or_else (seen p id (only b (to_each refs v) ++ only c (to_each refs w))) o)
                (seen-only_silent a refs u hu)
            ∙ or_else-none _
            ∙ seen-append (only b (to_each refs v)) (only c (to_each refs w))
            ∙ ap (λ (o : Option (Pose F)). or_else o (seen p id (only b (to_each refs v))))
                (seen-only_silent c refs w hw)
            ∙ seen-only b refs v)
