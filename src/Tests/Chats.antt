-- ===== src/Tests/Chats.antt =====
-- A player says something to another (internal/server/mcpe_commands.go).
use open_ai_mc_be_server.Prelude.{ℕ, ◌≡◌, Bool, true, false, List, [], ◌∷◌, ◌⊎◌, ◌+◌, refl}
use open_ai_mc_be_server.Prelude.Strings.{codes}
use open_ai_mc_be_server.Session.State.{new_client, spawned, is_spawned}
use open_ai_mc_be_server.Command.Args.{Text}
use open_ai_mc_be_server.Command.Runes.{Bytes, runes, runes_after, rune_at}
use open_ai_mc_be_server.Command.Registry.{is_blank, new_registry}
use open_ai_mc_be_server.Command.Dispatch.{Invocation, Result, Reply}
use open_ai_mc_be_server.Command.Chat.{Room, TextPacket, handle_text, clean_chat_message}
use open_ai_mc_be_server.Command.Heard.{WasIgnored, handle_text-heard, WasCommand, WasSaid}

abbrev pub same_text : Text → Text
same_text t = t

abbrev pub same_texts : List Text → List Text
same_texts l = l

abbrev pub count_runs : ℕ → Invocation → ℕ → Result × ℕ
count_runs executor inv n = (record { success = true; messages = [] }, n + 1)

abbrev pub all_allowed : ℕ → Text → Bool
all_allowed ref permission = true

abbrev pub refusal : Reply → List Text
refusal reply = codes "no" ∷ []

abbrev pub everything : ℕ → TextPacket → Bool
everything ref pk = true

abbrev lobby : Room ℕ
lobby = record {
  server = record {
    online_mode = true;
    has_packs = false;
    view_distance = 8;
    next_id = 2;
    players = (1, 0) ∷ (2, 1) ∷ [];
    clients = λ ref. record new_client { state = spawned; runtime_id = ref + 1 };
    sent = [];
  };
  host = 0;
  sent = [];
}

-- `hi`, a NUL, and two bytes of a rune of three.
abbrev cut_short : Bytes
cut_short = 104 ∷ 105 ∷ 0 ∷ 226 ∷ 130 ∷ []

-- A slash, the three bytes of a euro sign, and the first two of another.
cut_runes : runes (47 ∷ 226 ∷ 130 ∷ 172 ∷ 226 ∷ 130 ∷ []) ≡ 47 ∷ 8364 ∷ 1114338 ∷ 1114242 ∷ []
unfolding runes_after rune_at
cut_runes = refl

handle_text-heard_example :
    let r =
      handle_text everything same_text same_text same_text same_texts count_runs new_registry
        all_allowed refusal 0 true cut_short lobby in
    let m = clean_chat_message same_text cut_short in
    WasIgnored everything same_text same_text same_text same_texts count_runs new_registry
      all_allowed refusal 0 true m lobby r
    ⊎ ((is_spawned (lobby.server.clients 0).state ≡ true)
        × (◌≡◌ {A = Bool} true true)
        × (is_blank m ≡ false)
        × (WasCommand everything same_text same_text same_text same_texts count_runs new_registry
              all_allowed refusal 0 m lobby r
            ⊎ WasSaid everything same_text same_text same_text same_texts count_runs new_registry
                all_allowed refusal 0 m lobby r))
handle_text-heard_example =
    handle_text-heard everything same_text same_text same_text same_texts count_runs new_registry
      all_allowed refusal 0 true cut_short lobby
