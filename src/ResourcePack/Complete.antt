-- ===== src/ResourcePack/Complete.antt =====
-- A whole download, from `Begin` on
-- (internal/resourcepack/resourcepack.go, `Queue`).
use mathlib.Core.Path.{ap₂}
use mathlib.Core.List.{append_assoc, append-nil}
use open_ai_mc_be_server.ResourcePack.Whole.{download_lem}
use open_ai_mc_be_server.ResourcePack.Queue.{
  seen, cut, begin, find_pack, fits_request, find_from, select_all, info_of_current, Queue,
  PackPacket,
}
use open_ai_mc_be_server.ResourcePack.Pack.{Pack}
use open_ai_mc_be_server.ResourcePack.Download.{IsServed, contents_at, at, AllServed, download}
use open_ai_mc_be_server.Command.Args.{Text}
use open_ai_mc_be_server.Prelude.{
  ◌||◌, ==_iff, ◌==◌, map, if◌then◌else◌, true≢false, Option-cases, sym, Bool, inr, inl, true, ◌++◌,
  Bool-cases, Option, false, ap, ◌∙◌, [], ◌/◌, arith, ◌-◌, ◌+◌, none, some, get_elem?, ◌∷◌, ◌≡◌,
  ◌<◌, length, List, ℕ, zero, suc, refl,
}

-- Every pack has data, and its chunks are counted in 32 bits.
abbrev pub AllFilled : ℕ → List Pack → Type 0
AllFilled k [] = Unit {0}
AllFilled k (pack ∷ packs) =
    (0 < length pack.content) × ((length pack.content + k - 1) / k < 4294967296) × AllFilled k packs

get_elem?-filled :
    (k : ℕ) (packs : List Pack) (i : ℕ) {pack : Pack}
    → AllFilled k packs
    → get_elem? packs i ≡ some pack
    → (0 < length pack.content) × ((length pack.content + k - 1) / k < 4294967296)
get_elem?-filled k [] i filled e = cc
get_elem?-filled k (p ∷ packs) zero {pack = pack} filled e =
    let same : p ≡ pack = cc in rw (← same) (filled.0, filled.1)
get_elem?-filled k (p ∷ packs) (suc i) filled e = get_elem?-filled k packs i filled.2 e

-- A list without a number, and with each number only where it stands first.
abbrev pub without : ℕ → List ℕ → List ℕ
without i [] = []
without i (j ∷ js) = if j == i then without i js else j ∷ without i js

abbrev pub firsts : List ℕ → List ℕ
firsts [] = []
firsts (i ∷ is) = i ∷ without i (firsts is)

-- What is not in a list.
abbrev outside : List ℕ → List ℕ → List ℕ
outside is [] = []
outside is (j ∷ js) = if seen j is then outside is js else j ∷ outside is js

seen-append : (j i : ℕ) (is : List ℕ) → seen j (is ++ i ∷ []) ≡ (j == i || seen j is)
seen-append j i [] = refl
seen-append j i (k ∷ is) = let rest = seen-append j i is in ground (arith, rest)

outside-append : (i : ℕ) (is js : List ℕ) → outside (is ++ i ∷ []) js ≡ outside is (without i js)
outside-append i is [] = refl
outside-append i is (j ∷ js) =
    let rest = outside-append i is js in
    let now = seen-append j i is in
    elim (Bool-cases (j == i)) [
      | inl e ↦ rw (now, e) rest
      | inr n ↦ elim (Bool-cases (seen j is)) [
        | inl o ↦ rw (now, n, o) rest
        | inr w ↦ rw (now, n, w, rest) refl
      ]
    ]

outside-without :
    (i : ℕ) (is js : List ℕ) → seen i is ≡ true → outside is (without i js) ≡ outside is js
outside-without i is [] old = refl
outside-without i is (j ∷ js) old =
    let rest = outside-without i is js old in
    elim (Bool-cases (j == i)) [
      | inl e ↦
          let same : j ≡ i = (==_iff j i).0 e in
          let there : seen j is ≡ true = rw same old in rw (e, there) rest
      | inr n ↦ rw (n, rest) refl
    ]

outside-nil : (js : List ℕ) → outside [] js ≡ js
outside-nil [] = refl
outside-nil (j ∷ js) = ap (λ (l : List ℕ). j ∷ l) (outside-nil js)

AllServed-append :
    (k : ℕ) (packs : List Pack) (is : List ℕ) (i : ℕ)
    → AllServed k packs is
    → IsServed k packs i
    → AllServed k packs (is ++ i ∷ [])
AllServed-append k packs [] i served here = (here, tt)
AllServed-append k packs (j ∷ is) i served here =
    (served.0, AllServed-append k packs is i served.1 here)

module _ (uuid_string : ℕ → Text) where
  -- A pack that was found is in the list.
  find_from-found :
      (n : ℕ) (id version : Text) (packs : List Pack) (i : ℕ)
      → find_from uuid_string n id version packs ≡ some i
      → (pack : Pack) × (j : ℕ) × (i ≡ n + j) × (get_elem? packs j ≡ some pack)
  unfolding find_from
  find_from-found n id version [] i e = cc
  find_from-found n id version (p ∷ packs) i e =
      elim (Bool-cases (fits_request uuid_string id version p)) [
        | inl f ↦
            let first : some n ≡ some i = rw f at e in
            let same : n ≡ i = cc in (p, 0, omega (arith, same), refl)
        | inr g ↦
            let (pack, j, at, found) = find_from-found (suc n) id version packs i (rw g at e) in
            (pack, suc j, omega (arith, at), found)
      ]

  find_pack-IsServed :
      (r : Text) (q : Queue) (i : ℕ)
      → AllFilled q.chunk_size q.packs
      → find_pack uuid_string r q ≡ some i
      → IsServed q.chunk_size q.packs i
  unfolding find_pack
  find_pack-IsServed r q i filled e =
      let (id, version) = cut r in
      let (pack, j, at, found) = find_from-found 0 id version q.packs i e in
      let same : i ≡ j = omega (arith, at) in
      let found' : get_elem? q.packs i ≡ some pack = rw same found in
      let (some_data, counted) = get_elem?-filled q.chunk_size q.packs i filled found' in
      record { pack = pack; found = found'; some_data = some_data; counted = counted }

  -- What `begin` starts from, with the indices that were selected so far.
  abbrev selecting : Queue → List ℕ → Queue
  selecting q is = record q { selected = is; current = 0; current_chunk = 0 }

  -- The pack that each request names: the first that has the UUID of the request, and its
  -- version if it gives one.
  abbrev pub Names : Queue → List Text → List ℕ → Type 0
  Names q requests found = map (λ r. find_pack uuid_string r q) requests ≡ map some found

  select_all-AllServed :
      (requests : List Text) (q : Queue) (is : List ℕ) {q' : Queue}
      → AllFilled q.chunk_size q.packs
      → AllServed q.chunk_size q.packs is
      → select_all uuid_string requests (selecting q is) ≡ (true, q')
      → (js : List ℕ) × (found : List ℕ) × (q' ≡ selecting q js)
        × AllServed q.chunk_size q.packs js
        × Names q requests found
        × (js ≡ is ++ outside is (firsts found))
  unfolding select_all find_pack
  select_all-AllServed [] q is filled served e =
      (is, [], ap (λ (r : Bool × Queue). r.1) (sym e), served, refl, sym (append-nil is))
  select_all-AllServed (r ∷ requests) q is {q' = q'} filled served e =
      elim (Option-cases (find_pack uuid_string r (selecting q is))) [
        | inl f ↦
            let bad : (false, selecting q is) ≡ (true, q') = rw (select_all, f) at e in
            absurd (true≢false (ap (λ (r : Bool × Queue). r.0) (sym bad)))
        | inr (i, f) ↦
            let here = find_pack-IsServed r (selecting q is) i filled f in
            elim (Bool-cases (seen i is)) [
              | inl old ↦
                  let (js, found, same, all, names, order) =
                    select_all-AllServed requests q is filled served
                      (rw (select_all, f, old) at e) in
                  (
                    js,
                    i ∷ found,
                    same,
                    all,
                    ap₂ (λ (o : Option ℕ) (l : List (Option ℕ)). o ∷ l) f names,
                    rw (old, outside-without i is (firsts found) old) order,
                  )
              | inr new ↦
                  let (js, found, same, all, names, order) =
                    select_all-AllServed requests q (is ++ i ∷ []) filled
                      (AllServed-append q.chunk_size q.packs is i served here)
                      (rw (select_all, f, new) at e) in
                  (
                    js,
                    i ∷ found,
                    same,
                    all,
                    ap₂ (λ (o : Option ℕ) (l : List (Option ℕ)). o ∷ l) f names,
                    rw (new, ← outside-append i is (firsts found))
                        (order ∙ append_assoc is (i ∷ []) (outside (is ++ i ∷ []) (firsts found))),
                  )
            ]
      ]

  -- If every pack has data and a number of chunks below 2 ^ 32, and chunks have a size, then
  -- after `Begin` without an error every request names a pack, and the packs that are selected
  -- are exactly those that the requests name, each once, in the order in which it is named
  -- first. A client gets all of them: one that takes each announced pack, chunk by chunk from
  -- 0 on and as many as its data info says, has every request answered, is told of the next
  -- pack by the answer to the last chunk of one, ends with the data of the selected packs in
  -- order, and leaves the queue with no selected pack to come.
  pub download-begin :
      (requests : List Text) (q : Queue) {announced : List PackPacket} {q' : Queue}
      → 0 < q.chunk_size
      → AllFilled q.chunk_size q.packs
      → begin uuid_string requests q ≡ (some announced, q')
      → (found : List ℕ) × Names q requests found
        × (q'.selected ≡ firsts found)
        × (download uuid_string (length q'.selected) announced q'
            ≡ some (contents_at q.packs q'.selected, record q' { current = length q'.selected }))
  unfolding begin
  download-begin requests q {announced = announced} {q' = q'} pos filled e =
      elim (Bool-cases (select_all uuid_string requests (selecting q [])).0) [
        | inl ok ↦
            let all = select_all uuid_string requests (selecting q []) in
            let (js, found, same, served, names, order) =
              select_all-AllServed requests q [] {q' = all.1} filled tt
                (ap (λ (b : Bool). (b, all.1)) ok) in
            let began : (some (info_of_current all.1), all.1) ≡ (some announced, q') = rw ok at e in
            let now : selecting q js ≡ q' =
              sym same ∙ ap (λ (r : Option (List PackPacket) × Queue). r.1) began in
            let told : some (info_of_current all.1) ≡ some announced =
              ap (λ (r : Option (List PackPacket) × Queue). r.0) began in
            let told' : info_of_current all.1 ≡ announced = cc in
            rw (← now, ← told', same)
              (
                found,
                names,
                order ∙ outside-nil (firsts found),
                download_lem uuid_string q.packs js q.chunk_size pos js 0 refl (omega arith) served,
              )
        | inr bad ↦
            let failed : (none, (select_all uuid_string requests (selecting q [])).1)
                ≡ (some announced, q') =
              rw bad at e in
            let wrong : none ≡ some announced =
              ap (λ (r : Option (List PackPacket) × Queue). r.0) failed in
            cc
      ]
