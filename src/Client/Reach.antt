-- ===== src/Client/Reach.antt =====
-- What holds of a client whatever was done with it, and however that ended.
use mathlib.Core.Path.{subst}
use flipperzero_mcp.Rpc.Storage.{storage_info}
use flipperzero_mcp.Rpc.Session.{send_stop_session, ensure_rpc_session_started}
use flipperzero_mcp.Cli.Risk.{classify, Risk, Case}
use flipperzero_mcp.Proto.{Codec}
use flipperzero_mcp.Link.{Exn, cancelled, raised, ok, Result, Link}
use flipperzero_mcp.Base.{
  some, none, Option, false, true, Bool, inr, inl, ◌⊎◌, ◌∙◌, sym, refl, ◌≡◌, ℕ, codes, Text, Bytes,
  if◌then◌else◌,
}
use flipperzero_mcp.Client.{
  LinkMode, unknown, cli, rpc, Client, caught, guarded, connect, close_after, disconnect, switched,
  enter_rpc, enter_cli, remember, cached_or_asked, check_sd_card_available, is_os_or_runtime,
}
use flipperzero_mcp.Cli.Exec.{converse, cli_exec, cli_exchange, after_stop, relink}
use flipperzero_mcp.Client.Health.{get_connection_health}
use flipperzero_mcp.Client.Info
use flipperzero_mcp.Client.Unmoved.{
  IsUnmoved, get_connection_health-IsUnmoved, get_device_info-IsUnmoved,
}
use flipperzero_mcp.Cli.Exec.Gate.{cli_exec-Permits}

-- A client as `__init__` leaves it.
pub record IsNew (cl : Client) : Type 0 where
  pub not_connected : cl.connected ≡ false
  pub no_rpc : cl.has_rpc ≡ false
  pub no_mode : cl.mode ≡ unknown

-- The client counts as connected exactly if it has a session layer, and only then is its mode known.
abbrev pub IsSound : Client → Type 0
IsSound cl = (cl.connected ≡ cl.has_rpc) × ((cl.has_rpc ≡ true) ⊎ (cl.mode ≡ unknown))

module _ ⦃c : Codec⦄ ⦃k : Case⦄ where
  -- One operation, whatever the transport does in it and however it ends.
  pub data Step : Client → Client → Type 0 where
    connects : (r : Result Bool) (cl : Client) → Step cl (connect r cl).1
    disconnects : (r : Result (Unit {0})) (cl : Client) → Step cl (disconnect r cl).1
    enters_rpc : (cl : Client) → Step cl (enter_rpc cl).1
    enters_cli : (cl : Client) → Step cl (enter_cli cl).1
    checks_sd : (cl : Client) → Step cl (check_sd_card_available cl).1
    executes :
        (command : Text) (timeout : ℕ) (a t : Bool) (cl : Client)
        → Step cl (cli_exec command timeout a t cl).1
    reports :
        (probe : Bool) (transport : Result Bool) (cl : Client)
        → Step cl (get_connection_health probe transport cl).1
    informs : (cl : Client) → Step cl (flipperzero_mcp.Client.Info.get_device_info cl).1
    -- the environment changes the link between two operations
    elsewhere : (w : Link) (cl : Client) → Step cl (record cl { link = w })

  pub data Reach : Client → Type 0 where
    start : {cl : Client} → IsNew cl → Reach cl
    next : {cl cl' : Client} → Reach cl → Step cl cl' → Reach cl'

  -- Both ends of a test leave a sound client.
  if-IsSound :
      {A : Type 0} (b : Bool) (x y : Result A × Client)
      → (b ≡ true → IsSound x.1)
      → (b ≡ false → IsSound y.1)
      → IsSound (if◌then◌else◌ {A = Result A × Client} b x y).1
  if-IsSound true x y h k = h refl
  if-IsSound false x y h k = k refl

  caught-IsSound :
      {A : Type 0} (e : Exn) (a : A) (cl : Client) → IsSound cl → IsSound (caught e a cl).1
  caught-IsSound e a cl s = if-IsSound (is_os_or_runtime e) _ _ (λ _. s) (λ _. s)

  connect-IsSound : (r : Result Bool) (cl : Client) → IsSound cl → IsSound (connect r cl).1
  unfolding connect
  connect-IsSound (ok true) cl s = (refl, inl refl)
  connect-IsSound (ok false) cl s = s
  connect-IsSound (raised e) cl s = caught-IsSound e false cl s
  connect-IsSound cancelled cl s = s

  close_after-IsSound :
      (r : Result (Unit {0})) (cl : Client) → IsSound cl → IsSound (close_after (r, cl)).1
  unfolding close_after
  close_after-IsSound (ok tt) cl s = (refl, inr refl)
  close_after-IsSound (raised e) cl s = s
  close_after-IsSound cancelled cl s = s

  disconnect-IsSound :
      (r : Result (Unit {0})) (cl : Client) → IsSound cl → IsSound (disconnect r cl).1
  unfolding disconnect
  disconnect-IsSound (ok tt) cl s = close_after-IsSound (ok tt) cl s
  disconnect-IsSound (raised e) cl s =
      close_after-IsSound (caught e tt cl).0 (caught e tt cl).1 (caught-IsSound e tt cl s)
  disconnect-IsSound cancelled cl s = s

  switched-IsSound :
      (to : LinkMode) (cl : Client) (r : Result (Unit {0}) × Link)
      → cl.has_rpc ≡ true
      → IsSound cl
      → IsSound (switched to cl r).1
  unfolding switched
  switched-IsSound to cl (ok tt, w) h s = (s.0, inl h)
  switched-IsSound to cl (raised e, w) h s = s
  switched-IsSound to cl (cancelled, w) h s = s

  enter_rpc-IsSound : (cl : Client) → IsSound cl → IsSound (enter_rpc cl).1
  unfolding enter_rpc
  enter_rpc-IsSound cl s =
      if-IsSound cl.has_rpc _ _
        (λ y. switched-IsSound rpc cl (ensure_rpc_session_started cl.link) y s) (λ _. s)

  enter_cli-IsSound : (cl : Client) → IsSound cl → IsSound (enter_cli cl).1
  unfolding enter_cli
  enter_cli-IsSound cl s =
      if-IsSound cl.has_rpc _ _ (λ y. switched-IsSound cli cl (send_stop_session cl.link) y s)
        (λ _. s)

  remember-IsSound :
      (r : Result (Option (ℕ × ℕ))) (cl : Client) → IsSound cl → IsSound (remember (r, cl)).1
  unfolding remember
  remember-IsSound (ok info) cl s = s
  remember-IsSound (raised e) cl s = s
  remember-IsSound cancelled cl s = s

  guarded-IsSound :
      {A : Type 0} (a : A) (cl : Client) (r : Result A × Link)
      → IsSound cl
      → IsSound (guarded a cl r).1
  guarded-IsSound a cl (ok b, w) s = s
  guarded-IsSound a cl (raised e, w) s = caught-IsSound e a (record cl { link = w }) s
  guarded-IsSound a cl (cancelled, w) s = s

  cached_or_asked-IsSound :
      (o : Option Bool) (cl : Client) → IsSound cl → IsSound (cached_or_asked o cl).1
  unfolding cached_or_asked
  cached_or_asked-IsSound (some b) cl s = s
  cached_or_asked-IsSound none cl s =
      let asked = guarded none cl (storage_info (codes "/ext") cl.link) in
      if-IsSound cl.has_rpc _ _
        (λ _.
          remember-IsSound asked.0 asked.1
            (guarded-IsSound none cl (storage_info (codes "/ext") cl.link) s))
        (λ _. remember-IsSound (ok none) cl s)

  relink-IsSound :
      (cl : Client) (r : Result (Bytes × Bool) × Link) (risk : Risk)
      → IsSound cl
      → IsSound (relink cl r risk).1
  unfolding relink
  relink-IsSound cl (ok b, w) risk s = s
  relink-IsSound cl (raised e, w) risk s = s
  relink-IsSound cl (cancelled, w) risk s = s

  after_stop-IsSound :
      (command : Text) (timeout : ℕ) (risk : Risk) (cl : Client) (r : Result (Unit {0}) × Link)
      → cl.has_rpc ≡ true
      → IsSound cl
      → IsSound (after_stop command timeout risk cl r).1
  unfolding after_stop
  after_stop-IsSound command timeout risk cl (ok tt, w) h s =
      relink-IsSound (record cl { mode = cli }) (converse command timeout w) risk (s.0, inl h)
  after_stop-IsSound command timeout risk cl (raised e, w) h s = s
  after_stop-IsSound command timeout risk cl (cancelled, w) h s = s

  cli_exec-IsSound :
      (command : Text) (timeout : ℕ) (a t : Bool) (cl : Client)
      → IsSound cl
      → IsSound (cli_exec command timeout a t cl).1
  unfolding cli_exchange
  cli_exec-IsSound command timeout a t cl s = elim (cli_exec-Permits command timeout a t cl) [
    | inl (permitted, e) ↦
        subst (λ r. IsSound r.1) (sym e)
          (after_stop-IsSound command timeout (classify command) cl (send_stop_session cl.link)
            permitted.0 s)
    | inr (x, e) ↦ subst (λ r. IsSound r.1) (sym e) s
  ]

  IsUnmoved-IsSound : (cl u : Client) → IsUnmoved cl u → IsSound cl → IsSound u
  IsUnmoved-IsSound cl u p s = (p.0 ∙ s.0 ∙ sym p.1, by_side s.1)
    where
      by_side : (cl.has_rpc ≡ true) ⊎ (cl.mode ≡ unknown) → (u.has_rpc ≡ true) ⊎ (u.mode ≡ unknown)
      by_side (inl h) = inl (p.1 ∙ h)
      by_side (inr m) = inr (p.2 ∙ m)

  Step-IsSound : {cl cl' : Client} → Step cl cl' → IsSound cl → IsSound cl'
  unfolding check_sd_card_available
  Step-IsSound (connects r cl) s = connect-IsSound r cl s
  Step-IsSound (disconnects r cl) s = disconnect-IsSound r cl s
  Step-IsSound (enters_rpc cl) s = enter_rpc-IsSound cl s
  Step-IsSound (enters_cli cl) s = enter_cli-IsSound cl s
  Step-IsSound (checks_sd cl) s = cached_or_asked-IsSound cl.sd_card_available cl s
  Step-IsSound (executes command timeout a t cl) s = cli_exec-IsSound command timeout a t cl s
  Step-IsSound (reports probe transport cl) s =
      IsUnmoved-IsSound cl (get_connection_health probe transport cl).1
        (get_connection_health-IsUnmoved probe transport cl) s
  Step-IsSound (informs cl) s =
      IsUnmoved-IsSound cl (flipperzero_mcp.Client.Info.get_device_info cl).1
        (get_device_info-IsUnmoved cl) s
  Step-IsSound (elsewhere w cl) s = s

  -- After any sequence of operations of a FlipperClient, its health reports and device info among
  -- them, however each of them ended, a client counts as connected exactly
  -- if it has a session layer, and its mode is known only then.
  pub Reach-IsSound : {cl : Client} → Reach cl → IsSound cl
  Reach-IsSound (start n) = (n.not_connected ∙ sym n.no_rpc, inr n.no_mode)
  Reach-IsSound (next r step) = Step-IsSound step (Reach-IsSound r)
