-- ===== src/Session/Table.antt =====
-- Every player in the table went through the login: it is listed under an id that was handed out,
-- and its identity was a UUID. All handlers keep this.
use open_ai_mc_be_server.Session.Players.{add_player_to}
use open_ai_mc_be_server.Prelude.{
  ◌∙◌, sym, ==_iff, ap, ℕ, ◌<◌, ◌≤◌, ◌≡◌, ◌≢◌, Bool, none, some, inl, inr, Bool-cases, ◌==◌,
}
use open_ai_mc_be_server.Prelude.Dict.{lookup, lookup-insert}
use open_ai_mc_be_server.Session.State.{Client, Message, Server, Handler, ◌>>◌, assign}
use open_ai_mc_be_server.Session.Writes.{Same, WritesOnly, Outcome-cases}

pub record IsTable (s : Server) : Type 0 where
  pub listed :
      (id ref : ℕ)
      → lookup id s.players ≡ some ref
      → (0 < id) × (id ≤ s.next_id) × ((s.clients ref).uuid ≢ none)

pub record Keeps (m : Handler) : Type 0 where
  pub keep : (s : Server) → IsTable s → IsTable (m s).1

pub Same-IsTable : {s s' : Server} → Same s s' → IsTable s → IsTable s'
Same-IsTable {s} {s'} h t = record {
  listed = λ id ref e.
      rw (h.same_clients, h.same_next_id)
        (t.listed id ref (ap (lookup id) (sym h.same_players) ∙ e));
}

pub WritesOnly-Keeps : (m : Handler) → WritesOnly m → Keeps m
WritesOnly-Keeps m w = record { keep = λ s t. Same-IsTable (w s) t }

pub Keeps->> : (m k : Handler) → Keeps m → Keeps k → Keeps (m >> k)
Keeps->> m k hm hk = record {
  keep = λ s t. elim (Outcome-cases (m s).0) [
    | inl e ↦ rw e (hk.keep (m s).1 (hm.keep s t))
    | inr e ↦ rw e (hm.keep s t)
  ];
}

-- An assignment that does not clear the uuid.
abbrev pub KeepsUuid : (Client → Client) → Type 0
KeepsUuid f = (c : Client) → c.uuid ≢ none → (f c).uuid ≢ none

pub assign-Keeps : (ref : ℕ) (f : Client → Client) → KeepsUuid f → Keeps (assign ref f)
unfolding assign
assign-Keeps ref f k = record {
  keep = λ s t. record {
    listed = λ id other e.
        let (a, b, u) = t.listed id other e in
        (
          a,
          b,
          elim (Bool-cases (other == ref)) [
            | inl same ↦ rw same (k (s.clients ref) (rw ((==_iff other ref).0 same) at u))
            | inr diff ↦ rw diff u
          ],
        );
  };
}

pub add_player_to-IsTable :
    (delivers : ℕ → Message → Bool) (ref : ℕ) (s : Server)
    → IsTable s
    → 0 < (s.clients ref).runtime_id
    → (s.clients ref).runtime_id ≤ s.next_id
    → (s.clients ref).uuid ≢ none
    → IsTable (add_player_to delivers ref s)
unfolding add_player_to
add_player_to-IsTable delivers ref s t pos_id le u = record {
  listed = λ id other e. elim (Bool-cases ((s.clients ref).runtime_id == id)) [
    | inl same ↦
        let r : some ref ≡ some other =
          sym (lookup-insert (s.clients ref).runtime_id id ref s.players ∙ rw same) ∙ e in
        let same_ref : ref ≡ other = cc in
        rw (← same_ref, ← (==_iff (s.clients ref).runtime_id id).0 same) (pos_id, le, u)
    | inr diff ↦
        t.listed id other
          (sym (lookup-insert (s.clients ref).runtime_id id ref s.players ∙ rw diff) ∙ e)
  ];
}
