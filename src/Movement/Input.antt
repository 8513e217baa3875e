-- ===== src/Movement/Input.antt =====
-- What a tick's input does to the flags of a player (internal/server/mcpe_player_sync.go).
use open_ai_mc_be_server.Prelude.{
  ℕ, ◌<◌, ◌≡◌, ◌≢◌, refl, ap, ◌∙◌, Bool, true, false, ◌||◌, ◌==◌, if◌then◌else◌, Bool-cases, inl,
  inr, arith,
}
use open_ai_mc_be_server.Prelude.Dict.{lookup}
use open_ai_mc_be_server.Movement.Metadata.{
  Metadata, Keys, FlagNumbers, InputNumbers, Toggle, Bitset, input_flag, same_bool, ◌also◌,
  set_generic_metadata_flag, apply_input_toggle, update_player_metadata_from_input,
}
use open_ai_mc_be_server.Movement.Flags.{has_flag, set_generic_metadata_flag_lem}

-- A flag that is started or stopped, and not both, becomes what was asked for.
abbrev pub toggled : Bitset → Toggle → Bool → Bool
toggled input toggle old =
    if same_bool (input_flag input toggle.start) (input_flag input toggle.stop)
    then old
    else input_flag input toggle.start

-- The flag `g` after a change of the flag `flag`.
abbrev pub changed_at : ℕ → ℕ → Bool → Bool → Bool
changed_at g flag new old = if flag == g then new else old

module _ (flag : FlagNumbers) (in_ : InputNumbers) (input : Bitset) where
  -- What becomes of the flag `g`.
  abbrev pub after_input : ℕ → Bool → Bool
  after_input g old =
      let sneaks = changed_at g flag.sneaking (input_flag input in_.sneaking) old in
      let sprints = changed_at g flag.sprinting (toggled input in_.sprinting sneaks) sneaks in
      let swims = changed_at g flag.swimming (toggled input in_.swimming sprints) sprints in
      let glides = changed_at g flag.gliding (toggled input in_.gliding swims) swims in
      let flies = changed_at g flag.fly (toggled input in_.flying glides) glides in
      changed_at g flag.crawling (toggled input in_.crawling flies) flies

neither : (a b : Bool) → (a || b) ≡ false → (a ≡ false) × (b ≡ false)
neither true b h = (cc, cc)
neither false b h = (refl, h)

module _ {F : Type 0} (keys : Keys) (apart : keys.flags ≢ keys.flags_two) where
  -- A step that gives one flag a value, made of its old one, and says whether it changed anything.
  record Sets (step : Metadata F → Metadata F × Bool) (flag : ℕ) (new : Bool → Bool) : Type 0 where
    reads :
        (m : Metadata F) (g : ℕ)
        → g < 128
        → has_flag keys (step m).0 g
          ≡ changed_at g flag (new (has_flag keys m g)) (has_flag keys m g)
    quiet : (m : Metadata F) → (step m).1 ≡ false → (step m).0 ≡ m
    others :
        (m : Metadata F) (k : ℕ)
        → k ≢ keys.flags
        → k ≢ keys.flags_two
        → lookup k (step m).0 ≡ lookup k m

  set-Sets :
      (flag : ℕ) (v : Bool)
      → flag < 128
      → Sets (λ m. set_generic_metadata_flag keys m flag v) flag (λ old. v)
  set-Sets flag v p = record {
    reads = λ m. (set_generic_metadata_flag_lem keys m flag v p apart).0;
    quiet = λ m. (set_generic_metadata_flag_lem keys m flag v p apart).2;
    others = λ m. (set_generic_metadata_flag_lem keys m flag v p apart).3;
  }

  toggle-Sets :
      (flag : ℕ) (input : Bitset) (toggle : Toggle)
      → flag < 128
      → Sets (λ m. apply_input_toggle keys m flag input toggle) flag (toggled input toggle)
  unfolding apply_input_toggle
  toggle-Sets flag input toggle p =
      elim (Bool-cases (same_bool (input_flag input toggle.start) (input_flag input toggle.stop))) [
        | inl h ↦ rw h (record {
          reads = λ m g q. ground arith;
          quiet = λ m e. refl;
          others = λ m k a b. refl;
        })
        | inr h ↦
            let set = set-Sets flag (input_flag input toggle.start) p in
            record {
              reads = λ m g q. rw h (set.reads m g q);
              quiet = λ m. rw h (set.quiet m);
              others = λ m. rw h (set.others m);
            }
      ]

  -- What a chain of steps has made of the metadata it began with.
  record Follows (m : Metadata F) (p : Metadata F × Bool) (view : ℕ → Bool → Bool) : Type 0 where
    reads : (g : ℕ) → g < 128 → has_flag keys p.0 g ≡ view g (has_flag keys m g)
    quiet : p.1 ≡ false → p.0 ≡ m
    others : (k : ℕ) → k ≢ keys.flags → k ≢ keys.flags_two → lookup k p.0 ≡ lookup k m

  also-Follows :
      (m : Metadata F) (p : Metadata F × Bool) (view : ℕ → Bool → Bool)
      (step : Metadata F → Metadata F × Bool) (flag : ℕ) (new : Bool → Bool)
      → Follows m p view
      → Sets step flag new
      → Follows m (p also step) (λ g old. changed_at g flag (new (view g old)) (view g old))
  also-Follows m p view step flag new f s = record {
    reads = λ g q. s.reads p.0 g q ∙ ap (λ old. changed_at g flag (new old) old) (f.reads g q);
    quiet = λ h. let (a, b) = neither (step p.0).1 p.1 h in s.quiet p.0 a ∙ f.quiet b;
    others = λ k a b. s.others p.0 k a b ∙ f.others k a b;
  }

  -- With two different keys for the words of flags and six flag numbers below 128, an input
  -- makes the sneaking flag what it says, makes each of the other five what it asks for if it
  -- starts or stops it and not both, and leaves the rest of the 128 flags. Where it reports no
  -- change the metadata is as it was, and what stands under any other key is kept.
  pub update_player_metadata_from_input_lem :
      (flag : FlagNumbers) (in_ : InputNumbers) (input : Bitset) (m : Metadata F)
      → flag.sneaking < 128
      → flag.sprinting < 128
      → flag.swimming < 128
      → flag.gliding < 128
      → flag.fly < 128
      → flag.crawling < 128
      → ((g : ℕ)
          → g < 128
          → has_flag keys (update_player_metadata_from_input keys flag in_ input m).0 g
            ≡ after_input flag in_ input g (has_flag keys m g))
        × ((update_player_metadata_from_input keys flag in_ input m).1 ≡ false
            → (update_player_metadata_from_input keys flag in_ input m).0 ≡ m)
        × ((k : ℕ)
            → k ≢ keys.flags
            → k ≢ keys.flags_two
            → lookup k (update_player_metadata_from_input keys flag in_ input m).0 ≡ lookup k m)
  unfolding update_player_metadata_from_input
  update_player_metadata_from_input_lem flag in_ input m a b c d e f =
      let start : Follows m (m, false) (λ g old. old) = record {
        reads = λ g q. refl;
        quiet = λ h. refl;
        others = λ k x y. refl;
      } in
      let sneaks =
        also-Follows m _ _ _ flag.sneaking _ start
          (set-Sets flag.sneaking (input_flag input in_.sneaking) a) in
      let sprints =
        also-Follows m _ _ _ flag.sprinting _ sneaks
          (toggle-Sets flag.sprinting input in_.sprinting b) in
      let swims =
        also-Follows m _ _ _ flag.swimming _ sprints
          (toggle-Sets flag.swimming input in_.swimming c) in
      let glides =
        also-Follows m _ _ _ flag.gliding _ swims (toggle-Sets flag.gliding input in_.gliding d) in
      let flies =
        also-Follows m _ _ _ flag.fly _ glides (toggle-Sets flag.fly input in_.flying e) in
      let crawls =
        also-Follows m _ _ _ flag.crawling _ flies
          (toggle-Sets flag.crawling input in_.crawling f) in
      (crawls.reads, crawls.quiet, crawls.others)
