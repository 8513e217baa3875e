-- ===== src/Movement/Still.antt =====
-- Writing packets moves no body (internal/server/mcpe_player_sync.go).
use open_ai_mc_be_server.Prelude.{
  ℕ, ◌≡◌, refl, ◌∙◌, Bool, true, false, List, [], ◌∷◌, Bool-cases, inl, inr,
}
use open_ai_mc_be_server.Session.State.{spawned_players_except, Outcome, done, failed}
use open_ai_mc_be_server.Movement.Body.{Stage, Update}
use open_ai_mc_be_server.Movement.Handlers.{
  write_update, write_updates, when, broadcast_to_spawned_peers, ◌next◌, StageHandler,
}

module _ {F D : Type 0} (delivers : ℕ → Update F → Bool) where
  -- The handler writes packets and moves no body.
  abbrev pub StandsStill : StageHandler F D → Type 0
  StandsStill m = (s : Stage F D) → (m s).1.bodies ≡ s.bodies

  pub write-StandsStill : (ref : ℕ) (u : Update F) → StandsStill (write_update delivers ref u)
  unfolding write_update
  write-StandsStill ref u s = elim (Bool-cases (delivers ref u)) [
    | inl h ↦ rw h refl
    | inr h ↦ rw h refl
  ]

  next-bodies :
      (r : Outcome × Stage F D) (m : StageHandler F D)
      → StandsStill m
      → (r next m).1.bodies ≡ r.1.bodies
  next-bodies (done, s) m h = h s
  next-bodies (failed, s) m h = refl

  writes-StandsStill : (refs : List ℕ) (u : Update F) → StandsStill (write_updates delivers refs u)
  unfolding write_updates
  writes-StandsStill [] u s = refl
  writes-StandsStill (ref ∷ refs) u s =
      next-bodies (write_update delivers ref u s) (write_updates delivers refs u)
        (writes-StandsStill refs u)
      ∙ write-StandsStill ref u s

  pub when-StandsStill :
      (b : Bool) (m : StageHandler F D) → StandsStill m → StandsStill (when delivers b m)
  when-StandsStill true m h s = h s
  when-StandsStill false m h s = refl

  pub broadcast-StandsStill :
      (ref : ℕ) (packet : Stage F D → Update F)
      → StandsStill (λ s. broadcast_to_spawned_peers delivers ref (packet s) s)
  unfolding broadcast_to_spawned_peers
  broadcast-StandsStill ref packet s =
      writes-StandsStill (spawned_players_except s.server ref) (packet s) s

  pub three-bodies :
      (s : Stage F D) (a b c : StageHandler F D)
      → StandsStill a
      → StandsStill b
      → StandsStill c
      → ((done, s) next a next b next c).1.bodies ≡ s.bodies
  three-bodies s a b c ha hb hc =
      next-bodies ((done, s) next a next b) c hc ∙ next-bodies ((done, s) next a) b hb ∙ ha s
