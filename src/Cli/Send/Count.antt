-- ===== src/Cli/Send/Count.antt =====
-- How often `send_many` of src/bin/main.rs sends, and what.
use mathlib.Core.List.{append_assoc, append-nil}
use magic_wormhole_rs.Common.{
  ℕ, zero, suc, ◌+◌, ◌-◌, ◌^◌, ◌≤◌, ◌<◌, ◌≡◌, refl, List, [], ◌∷◌, ◌++◌, some, true, false, ok,
  Action, after-reach, length, length-append, All, ltb, lt→ltb, le→ltb, Bool-cases, Option-cases,
  inl, inr, arith, ap, sym, ◌∙◌,
}
use magic_wormhole_rs.Core.Wormhole.{Wormhole}
use magic_wormhole_rs.Core.Connect.{WormholeWelcome, connect_with_code}
use magic_wormhole_rs.Transfer.Records.{add_size}
use magic_wormhole_rs.Cli.Desk.{CliError}
use magic_wormhole_rs.Cli.Connect.{app_config, reconnect}
use magic_wormhole_rs.Cli.Send.{
  Task, Booth, Order, Round, on_terminal, stop, launch, another, one_round, many_loop, send_many,
  send_in_background,
}

-- A task whose path is the name that was given, and whose name is the path.
pub record IsSwapped (order : Order) (task : Task) : Type 0 where
  pub url : task.url ≡ order.relay_server
  pub file_path : task.file_path ≡ order.file_name
  pub file_name : task.file_name ≡ order.file_path

-- The tasks between two states: so many at most, and all of them swapped.
pub record Launched (order : Order) (most : ℕ) (b e : Booth) : Type 0 where
  pub tasks : List Task
  pub spawned : e.spawned ≡ b.spawned ++ tasks
  pub swapped : All (IsSwapped order) tasks
  pub bounded : length tasks ≤ most

module _ (order : Order) where
  nothing_spawned : (most : ℕ) (b e : Booth) → e.spawned ≡ b.spawned → Launched order most b e
  nothing_spawned most b e h = record {
    tasks = [];
    spawned = h ∙ sym (append-nil b.spawned);
    swapped = tt;
    bounded = omega arith;
  }

  -- One launch, and those after it.
  one_more :
      (most : ℕ) (b c e : Booth) (task : Task)
      → c.spawned ≡ b.spawned ++ (task ∷ [])
      → IsSwapped order task
      → Launched order most c e
      → Launched order (suc most) b e
  one_more most b c e task h s l = record {
    tasks = task ∷ l.tasks;
    spawned = l.spawned ∙ ap (λ x. x ++ l.tasks) h ∙ append_assoc b.spawned (task ∷ []) l.tasks;
    swapped = (s, l.swapped);
    bounded = omega (arith, l.bounded);
  }

  launch-one_more :
      (most : ℕ) (b c e : Booth) (w : Wormhole)
      → c.spawned ≡ b.spawned
      → Launched order most (launch order w c).1 e
      → Launched order (suc most) b e
  unfolding launch send_in_background
  launch-one_more most b c e w h l =
      let task : Task = record {
        wormhole = w;
        url = order.relay_server;
        file_path = order.file_name;
        file_name = order.file_path;
      } in
      one_more most b (launch order w c).1 e task (ap (λ x. x ++ (task ∷ [])) h)
        (record { url = refl; file_path = refl; file_name = refl }) l

  launch-lt :
      (b e : Booth) (w : Wormhole) (tasks : List Task)
      → e.spawned ≡ (launch order w b).1.spawned ++ tasks
      → length b.spawned < length e.spawned
  unfolding launch send_in_background
  launch-lt b e w tasks h =
      let n : length e.spawned ≡ _ =
        ap length h ∙ length-append (launch order w b).1.spawned tasks in
      let m : length (launch order w b).1.spawned ≡ length b.spawned + 1 =
        length-append b.spawned _ in
      omega (arith, n, m)

  at_most : (m n : ℕ) (b e : Booth) → m ≤ n → Launched order m b e → Launched order n b e
  at_most m n b e h l = record {
    tasks = l.tasks;
    spawned = l.spawned;
    swapped = l.swapped;
    bounded = omega (arith, h, l.bounded);
  }

  another-Launched :
      (most : ℕ) (round : Round) (again : Action Booth CliError (Unit {0})) (b : Booth)
      → ((c : Booth) → Launched order most c (again c).1)
      → Launched order (suc most) b (another order round again b).1
  unfolding another on_terminal launch send_in_background
  another-Launched most round again b k =
      after-reach (Launched order (suc most) b)
        (on_terminal (reconnect round.net app_config order.code) b) _
        (nothing_spawned (suc most) b _ refl)
        λ w _.
          let c : Booth = (on_terminal (reconnect round.net app_config order.code) b).1 in
          launch-one_more most b c _ w.1 refl (k (launch order w.1 c).1)

  one_round-Launched :
      (most tries : ℕ) (round : Round) (again : Action Booth CliError (Unit {0})) (b : Booth)
      → (tries ≤ order.max_tries → Launched order most b (another order round again b).1)
      → Launched order most b (one_round order round tries again b).1
  unfolding one_round stop
  one_round-Launched most tries round again b k =
      elim (Bool-cases (ltb round.elapsed order.timeout)) [
        | inr late ↦ rw (late, one_round) (nothing_spawned most b _ refl)
        | inl early ↦ elim (Bool-cases (ltb order.max_tries tries)) [
          | inl over ↦ rw (early, over, one_round) (nothing_spawned most b _ refl)
          | inr left ↦ rw (early, left, one_round) (k (ground (arith, left)))
        ]
      ]

  many_loop-Launched :
      (rounds : ℕ → Round) (fuel tries : ℕ) (b : Booth)
      → Launched order (suc order.max_tries - tries) b (many_loop order rounds fuel tries b).1
  unfolding many_loop
  many_loop-Launched rounds zero tries b = nothing_spawned _ b b refl
  many_loop-Launched rounds (suc fuel) tries b =
      let most : ℕ = suc order.max_tries - suc tries in
      let here : Launched order (suc order.max_tries - tries) b _ =
        one_round-Launched (suc order.max_tries - tries) tries (rounds tries)
          (many_loop order rounds fuel (suc tries)) b
          (λ h. at_most (suc most) (suc order.max_tries - tries) b _ (omega (arith, h)) (
            another-Launched most (rounds tries) (many_loop order rounds fuel (suc tries)) b
              (many_loop-Launched rounds fuel (suc tries)))) in
      elim (Option-cases (add_size tries 1)) [
        | inl full ↦ rw full (nothing_spawned _ b b refl)
        | inr (next, h) ↦ rw h here
      ]

  -- However the rounds turn out, `send_many` spawns at most two tasks more than the tries that it is
  -- given, and at least one. Each of them takes the name that it is given for the path of the file to
  -- send, and the path for the name to offer.
  pub send_many-Launched :
      (rounds : ℕ → Round) (wormhole : Wormhole) (b : Booth)
      → Launched order (order.max_tries + 2) b (send_many order rounds wormhole b).1
        × (length b.spawned < length (send_many order rounds wormhole b).1.spawned)
  unfolding send_many
  send_many-Launched rounds wormhole b =
      let c : Booth = (launch order wormhole b).1 in
      let e : Booth = (many_loop order rounds (suc (suc order.max_tries)) 0 c).1 in
      let l : Launched order (suc order.max_tries) c e =
        at_most (suc order.max_tries - 0) (suc order.max_tries) c e (omega arith)
          (many_loop-Launched rounds (suc (suc order.max_tries)) 0 c) in
      (
        at_most (suc (suc order.max_tries)) (order.max_tries + 2) b e (omega arith)
            (launch-one_more (suc order.max_tries) b b e wormhole refl l),
        launch-lt b e wormhole (l.tasks) l.spawned,
      )

-- Each round gets a connection and a wormhole.
abbrev pub Joins : Order → Round → Type 0
Joins order round =
    (welcome : WormholeWelcome) × ((w : Wormhole) × (connect_with_code round.net.env round.net.mint
          round.net.side (round.net.socket app_config.rendezvous_url) app_config order.code
        ≡ ok (welcome, w)))

module _ (order : Order) (rounds : ℕ → Round) (joins : (i : ℕ) → Joins order (rounds i))
    (early : (i : ℕ) → (rounds i).elapsed < order.timeout)
    (fits : order.max_tries + 2 < 2 ^ 64) where
  another-launches :
      (i : ℕ) (again : Action Booth CliError (Unit {0})) (b : Booth)
      → (c : Booth) × ((another order (rounds i) again b ≡ again c)
          × (length c.spawned ≡ length b.spawned + 1))
  unfolding another on_terminal reconnect launch send_in_background
  another-launches i again b =
      let (welcome, (w, h)) = joins i in
      ((launch order w b).1, (rw (h, reconnect) refl, length-append b.spawned _))

  next_fits : (tries : ℕ) → tries ≤ order.max_tries + 1 → add_size tries 1 ≡ some (tries + 1)
  next_fits tries h =
      let small : ltb (tries + 1) (2 ^ 64) ≡ true =
        lt→ltb (tries + 1) (2 ^ 64) (omega (arith, h, fits)) in
      rw small refl

  -- A round that is not the last.
  many_loop-next :
      (fuel tries : ℕ) (b : Booth)
      → tries ≤ order.max_tries
      → many_loop order rounds (suc fuel) tries b
        ≡ another order (rounds tries) (many_loop order rounds fuel (suc tries)) b
  unfolding many_loop one_round
  many_loop-next fuel tries b h =
      let intime : ltb (rounds tries).elapsed order.timeout ≡ true = lt→ltb _ _ (early tries) in
      let left : ltb order.max_tries tries ≡ false = le→ltb order.max_tries tries h in
      rw (next_fits tries (omega (arith, h)), intime, left) refl

  -- The last one.
  many_loop-last :
      (fuel tries : ℕ) (b : Booth)
      → tries ≡ order.max_tries + 1
      → ((many_loop order rounds (suc fuel) tries b).0 ≡ ok tt)
        × ((many_loop order rounds (suc fuel) tries b).1.spawned ≡ b.spawned)
  unfolding many_loop one_round stop
  many_loop-last fuel tries b h =
      let intime : ltb (rounds tries).elapsed order.timeout ≡ true = lt→ltb _ _ (early tries) in
      let over : ltb order.max_tries tries ≡ true =
        lt→ltb order.max_tries tries (omega (arith, h)) in
      rw (next_fits tries (omega (arith, h)), intime, over) (refl, refl)

  many_loop-exhausted :
      (fuel tries : ℕ) (b : Booth)
      → fuel + tries ≡ order.max_tries + 1
      → ((many_loop order rounds (suc fuel) tries b).0 ≡ ok tt)
        × (length (many_loop order rounds (suc fuel) tries b).1.spawned ≡ length b.spawned + fuel)
  many_loop-exhausted zero tries b h =
      let (o, e) = many_loop-last 0 tries b (omega (arith, h)) in (o, omega (arith, ap length e))
  many_loop-exhausted (suc fuel) tries b h =
      let again : Action Booth CliError (Unit {0}) =
        many_loop order rounds (suc fuel) (suc tries) in
      let run : many_loop order rounds (suc (suc fuel)) tries b
          ≡ another order (rounds tries) again b =
        many_loop-next (suc fuel) tries b (omega (arith, h)) in
      let (c, (launched, n)) = another-launches tries again b in
      let (o, m) = many_loop-exhausted fuel (suc tries) c (omega (arith, h)) in
      let whole : many_loop order rounds (suc (suc fuel)) tries b ≡ again c = run ∙ launched in
      (ap (λ r. r.0) whole ∙ o, ap (λ r. length r.1.spawned) whole ∙ m ∙ omega (arith, n))

  -- If each round comes to a wormhole in time, `send_many` ends well, and has spawned two tasks more
  -- than the tries that it is given.
  pub send_many-exhausted :
      (wormhole : Wormhole) (b : Booth)
      → ((send_many order rounds wormhole b).0 ≡ ok tt)
        × (length (send_many order rounds wormhole b).1.spawned
            ≡ length b.spawned + (order.max_tries + 2))
  unfolding send_many launch send_in_background
  send_many-exhausted wormhole b =
      let c : Booth = (launch order wormhole b).1 in
      let (o, m) = many_loop-exhausted (suc order.max_tries) 0 c (omega arith) in
      let n : length c.spawned ≡ length b.spawned + 1 = length-append b.spawned _ in
      (o, omega (arith, m, n))
