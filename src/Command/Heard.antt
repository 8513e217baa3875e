-- ===== src/Command/Heard.antt =====
-- Who hears what a client types (internal/server/mcpe_commands.go).
use mathlib.Core.List.{append-nil, append_assoc}
use open_ai_mc_be_server.Prelude.{
  if◌then◌else◌, length-take, ℕ, ◌≤◌, ◌≡◌, refl, ap, ◌∙◌, Bool, true, false, not, List, [], ◌∷◌,
  ◌++◌, map, length, Bool-cases, inl, inr, ◌⊎◌, arith, ◌&&◌,
}
use open_ai_mc_be_server.Session.State.{Outcome, done, failed, is_spawned, spawned_players}
use open_ai_mc_be_server.Command.Args.{Text}
use open_ai_mc_be_server.Command.Runes.{Bytes}
use open_ai_mc_be_server.Command.Registry.{Registry, is_blank}
use open_ai_mc_be_server.Command.Dispatch.{Invocation, Result, Reply}
use open_ai_mc_be_server.Command.Chat.{
  without_nul, Room, TextPacket, chat, raw, write_text, write_texts, send_raw_texts,
  run_chat_command, handle_text, clean_chat_message, is_command, result_of, dispatched, is_panic,
}

module _ (delivers : ℕ → TextPacket → Bool) where
  -- Of these packets, in order: whether all are delivered, and those before the first that is not.
  abbrev pub reached : List (ℕ × TextPacket) → Outcome × List (ℕ × TextPacket)
  reached [] = (done, [])
  reached (p ∷ packets) =
      let rest = reached packets in if delivers p.0 p.1 then (rest.0, p ∷ rest.1) else (failed, [])

module _ {S : Type 0} (delivers : ℕ → TextPacket → Bool) where
  -- Exactly these packets were sent, up to the first write that fails, whose error is returned.
  abbrev pub Sends : Room S → List (ℕ × TextPacket) → Outcome × Room S → Type 0
  Sends s packets r =
      r ≡ ((reached delivers packets).0, record s { sent = s.sent ++ (reached delivers packets).1 })

  Sends-none :
      (o : Outcome) (s : Room S)
      → ◌≡◌ {A = Outcome × Room S} (o, s) (o, record s { sent = s.sent ++ [] })
  Sends-none o s = rw (append-nil s.sent) refl

  Sends-next :
      (s : Room S) (r : Outcome × Room S) (p : ℕ × TextPacket) (packets : List (ℕ × TextPacket))
      → Sends (record s { sent = s.sent ++ p ∷ [] }) packets r
      → r ≡ (
        (reached delivers packets).0,
        record s { sent = s.sent ++ p ∷ (reached delivers packets).1 },
      )
  Sends-next s r p packets e =
      e
      ∙ ap (λ (l : List (ℕ × TextPacket)). ((reached delivers packets).0, record s { sent = l }))
          (append_assoc s.sent (p ∷ []) (reached delivers packets).1)

  write_texts-Sends :
      (refs : List ℕ) (pk : TextPacket) (s : Room S)
      → Sends s (map (λ ref. (ref, pk)) refs) (write_texts delivers refs pk s)
  unfolding write_texts write_text
  write_texts-Sends [] pk s = Sends-none done s
  write_texts-Sends (ref ∷ refs) pk s = elim (Bool-cases (delivers ref pk)) [
    | inl e ↦ rw e (
        Sends-next s _ (ref, pk) _
          (write_texts-Sends refs pk (record s { sent = s.sent ++ (ref, pk) ∷ [] })))
    | inr e ↦ rw e (Sends-none failed s)
  ]

  send_raw_texts-Sends :
      (ref : ℕ) (messages : List Text) (s : Room S)
      → Sends s (map (λ m. (ref, raw m)) messages) (send_raw_texts delivers ref messages s)
  unfolding send_raw_texts write_text
  send_raw_texts-Sends ref [] s = Sends-none done s
  send_raw_texts-Sends ref (m ∷ messages) s = elim (Bool-cases (delivers ref (raw m))) [
    | inl e ↦ rw e (
        Sends-next s _ (ref, raw m) _
          (send_raw_texts-Sends ref messages (record s { sent = s.sent ++ (ref, raw m) ∷ [] })))
    | inr e ↦ rw e (Sends-none failed s)
  ]

  module _ (trim_bytes : Bytes → Bytes) (to_lower trim_space : Text → Text)
      (sort_strings : List Text → List Text) (run : ℕ → Invocation → S → Result × S)
      (reg : Registry) (allowed : ℕ → Text → Bool) (texts : Reply → List Text) where
    abbrev reply_to : ℕ → Bytes → Room S → Reply × S
    reply_to ref m s =
        dispatched delivers trim_bytes to_lower trim_space sort_strings run reg allowed texts ref m
          s.host

    -- Nothing was done: the client has not spawned, the packet is no chat, the message is empty, or
    -- the dispatch of a command panicked.
    abbrev pub WasIgnored : ℕ → Bool → Bytes → Room S → Outcome × Room S → Type 0
    WasIgnored ref is_chat m s r =
        (((is_spawned (s.server.clients ref).state && is_chat && not (is_blank m)) ≡ false)
          × (r ≡ (done, s)))
        ⊎ ((is_command m ≡ true) × (is_panic (reply_to ref m s).0 ≡ true) × (r ≡ (failed, s)))

    -- A command was run, and its sender alone hears of it.
    abbrev pub WasCommand : ℕ → Bytes → Room S → Outcome × Room S → Type 0
    WasCommand ref m s r =
        (is_command m ≡ true)
        × (is_panic (reply_to ref m s).0 ≡ false)
        × Sends (record s { host = (reply_to ref m s).1 })
            (map (λ text. (ref, raw text)) (result_of texts (reply_to ref m s).0).messages) r

    -- A short text was said to the spawned players, and no command was run.
    abbrev pub WasSaid : ℕ → Bytes → Room S → Outcome × Room S → Type 0
    WasSaid ref m s r =
        (is_command m ≡ false)
        × (length m ≤ 512)
        × Sends s (map (λ p. (p, chat ref m)) (spawned_players s.server)) r

    clean-short : (given : Bytes) → length (clean_chat_message trim_bytes given) ≤ 512
    unfolding clean_chat_message
    clean-short given = omega (arith, length-take 512 (trim_bytes (without_nul given)))

    -- A text packet does exactly one of three things. It changes nothing, if the client has
    -- not spawned, the packet is no chat, or its cleaned message is empty, which succeeds,
    -- or if the dispatch of a command panics. If the cleaned message begins with a slash, it
    -- is dispatched, and the sender is sent the messages of the result, in order. Any other
    -- message is at most 512 bytes long and is sent to each of the spawned players, in
    -- order, and changes nothing else. What is sent is all of these packets, or those before
    -- the first whose write fails, and the handler fails exactly then.
    pub handle_text-heard :
        (ref : ℕ) (is_chat : Bool) (given : Bytes) (s : Room S)
        → let r =
            handle_text delivers trim_bytes to_lower trim_space sort_strings run reg allowed texts
              ref is_chat given s in
          let m = clean_chat_message trim_bytes given in
          WasIgnored ref is_chat m s r
          ⊎ ((is_spawned (s.server.clients ref).state ≡ true)
              × (is_chat ≡ true)
              × (is_blank m ≡ false)
              × (WasCommand ref m s r ⊎ WasSaid ref m s r))
    unfolding handle_text run_chat_command
    handle_text-heard ref is_chat given s =
        let m = clean_chat_message trim_bytes given in
        elim (Bool-cases (is_spawned (s.server.clients ref).state)) [
          | inr p ↦ rw p (inl (inl (refl, refl)))
          | inl p ↦ elim (Bool-cases is_chat) [
            | inr q ↦ rw (p, q) (inl (inl (refl, refl)))
            | inl q ↦ elim (Bool-cases (is_blank m)) [
              | inl b ↦ rw (p, q, b) (inl (inl (refl, refl)))
              | inr b ↦ elim (Bool-cases (is_command m)) [
                | inr c ↦
                    rw (p, q, b, c)
                      (inr (
                        refl,
                        refl,
                        refl,
                        inr (
                          refl,
                          clean-short given,
                          write_texts-Sends (spawned_players s.server) (chat ref m) s,
                        ),
                      ))
                | inl c ↦ elim (Bool-cases (is_panic (reply_to ref m s).0)) [
                  | inl e ↦ rw (p, q, b, c, e) (inl (inr (refl, refl, refl)))
                  | inr e ↦
                      rw (p, q, b, c, e)
                        (inr (
                          refl,
                          refl,
                          refl,
                          inl (
                            refl,
                            refl,
                            send_raw_texts-Sends ref (result_of texts (reply_to ref m s).0).messages
                                (record s { host = (reply_to ref m s).1 }),
                          ),
                        ))
                ]
              ]
            ]
          ]
        ]
